-- ===== src/Text/Split.antt =====
-- `while (std::getline(ss, token, sep))` over a string stream. A delimiter at the very end of the text
-- starts no further token, and an empty text has none.
use session_affinity_engine.Base.{
  ℕ, ◌≡◌, ◌⊎◌, inl, inr, refl, sym, ap, ◌∙◌, true, false, List, [], ◌∷◌, ◌++◌, append_assoc,
  append-nil, arith, ◌==◌, All, All-append, Bool-cases, ==_iff,
}
use session_affinity_engine.Text.{Bytes, Lacks}

-- The token that the end of the text closes, if it has a byte.
last_line : Bytes → List Bytes
last_line [] = []
last_line (c ∷ cur) = (c ∷ cur) ∷ []

unfoldable pub lines_from : ℕ → Bytes → Bytes → List Bytes
unfolding last_line
lines_from sep cur [] = last_line cur
lines_from sep cur (c ∷ s) = elim (c == sep) [
  | true ↦ cur ∷ lines_from sep [] s
  | false ↦ lines_from sep (cur ++ c ∷ []) s
]

unfoldable pub getlines : ℕ → Bytes → List Bytes
unfolding lines_from
getlines sep s = lines_from sep [] s

-- The tokens with a separator between them, and with one behind each.
abbrev pub join : ℕ → List Bytes → Bytes
join sep [] = []
join sep (p ∷ []) = p
join sep (p ∷ q ∷ ps) = p ++ (sep ∷ join sep (q ∷ ps))

abbrev pub ended : ℕ → List Bytes → Bytes
ended sep [] = []
ended sep (p ∷ ps) = p ++ (sep ∷ ended sep ps)

pub lines_from-append :
    (sep : ℕ) (cur p rest : Bytes)
    → Lacks sep p
    → lines_from sep cur (p ++ rest) ≡ lines_from sep (cur ++ p) rest
unfolding lines_from
lines_from-append sep cur [] rest h = rw append-nil
lines_from-append sep cur (c ∷ p) rest h =
    ground (arith, lines_from-append sep (cur ++ c ∷ []) p rest, append_assoc cur (c ∷ []) p)

pub lines_from_sep :
    (sep : ℕ) (cur s : Bytes) → lines_from sep cur (sep ∷ s) ≡ cur ∷ lines_from sep [] s
unfolding lines_from
lines_from_sep sep cur s = ground arith

-- A token without the separator is read back, and reading goes on behind the separator.
pub getlines_token :
    (sep : ℕ) (p rest : Bytes)
    → Lacks sep p
    → getlines sep (p ++ sep ∷ rest) ≡ p ∷ getlines sep rest
unfolding getlines
getlines_token sep p rest h = lines_from-append sep [] p (sep ∷ rest) h ∙ lines_from_sep sep p rest

pub getlines_last :
    (sep c : ℕ) (p : Bytes) → Lacks sep (c ∷ p) → getlines sep (c ∷ p) ≡ (c ∷ p) ∷ []
unfolding getlines lines_from
getlines_last sep c p h =
    ap (getlines sep) (sym (append-nil (c ∷ p))) ∙ lines_from-append sep [] (c ∷ p) [] h

-- Where a separator closes the line `cur` and the rest `s` has the tokens `rest`.
closed_line :
    (sep c : ℕ) (cur s : Bytes) (rest : List Bytes)
    → c ≡ sep
    → (s ≡ join sep rest) ⊎ (s ≡ ended sep rest)
    → (cur ++ (c ∷ s) ≡ join sep (cur ∷ rest)) ⊎ (cur ++ (c ∷ s) ≡ ended sep (cur ∷ rest))
closed_line sep c cur s rest e (inr h) = inr (rw (e, h))
closed_line sep c cur s [] e (inl h) = inr (rw (e, h))
closed_line sep c cur s (q ∷ ps) e (inl h) = inl (rw (e, h))

lines_text :
    (sep : ℕ) (cur s : Bytes)
    → (cur ++ s ≡ join sep (lines_from sep cur s)) ⊎ (cur ++ s ≡ ended sep (lines_from sep cur s))
unfolding lines_from last_line
lines_text sep [] [] = inl refl
lines_text sep (b ∷ cur) [] = inl (append-nil (b ∷ cur))
lines_text sep cur (c ∷ s) = elim (Bool-cases (c == sep)) [
  | inl e ↦
      rw (e, lines_from)
        (closed_line sep c cur s (lines_from sep [] s) ((==_iff c sep).0 e) (lines_text sep [] s))
  | inr e ↦ rw (e, lines_from, ← append_assoc cur (c ∷ []) s) (lines_text sep (cur ++ c ∷ []) s)
]

-- A text is its tokens, with a separator between them or with one behind each.
pub getlines_text :
    (sep : ℕ) (s : Bytes) → (s ≡ join sep (getlines sep s)) ⊎ (s ≡ ended sep (getlines sep s))
unfolding getlines
getlines_text sep s = lines_text sep [] s

lines_from-Lacks :
    (sep : ℕ) (cur s : Bytes) → Lacks sep cur → All (Lacks sep) (lines_from sep cur s)
unfolding lines_from last_line
lines_from-Lacks sep [] [] h = tt
lines_from-Lacks sep (b ∷ cur) [] h = (h, tt)
lines_from-Lacks sep cur (c ∷ s) h = elim (Bool-cases (c == sep)) [
  | inl e ↦ rw (e, lines_from) (h, lines_from-Lacks sep [] s tt)
  | inr e ↦
      rw (e, lines_from)
        (lines_from-Lacks sep (cur ++ c ∷ []) s (All-append _ cur (c ∷ []) h (ground arith, tt)))
]

pub getlines-Lacks : (sep : ℕ) (s : Bytes) → All (Lacks sep) (getlines sep s)
unfolding getlines
getlines-Lacks sep s = lines_from-Lacks sep [] s tt

-- A text has one first separator, so what stands before it and behind it is determined.
pub cut_inj :
    (sep : ℕ) (p q s t : Bytes)
    → Lacks sep p
    → Lacks sep q
    → p ++ (sep ∷ s) ≡ q ++ (sep ∷ t)
    → (p ≡ q) × (s ≡ t)
cut_inj sep [] [] s t hp hq e = ground arith
cut_inj sep [] (b ∷ q) s t hp hq e = ground arith
cut_inj sep (a ∷ p) [] s t hp hq e = ground arith
cut_inj sep (a ∷ p) (b ∷ q) s t hp hq e = ground (arith, cut_inj sep p q s t)
