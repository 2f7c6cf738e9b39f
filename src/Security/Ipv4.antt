-- ===== src/Security/Ipv4.antt =====
-- The texts that Security::isValidIPv4 accepts.
use session_affinity_engine.Base.{
  ℕ, ◌+◌, ◌≤◌, ◌≡◌, ◌↔◌, ◌⊎◌, inl, inr, refl, ap, subst, ◌∙◌, true, List, [], ◌∷◌, ◌++◌, append-nil,
  arith, length, All,
}
use session_affinity_engine.Text.{Bytes, is_digit, Lacks}
use session_affinity_engine.Text.Decimal.{to_string, to_string_cons, to_string-Lacks}
use session_affinity_engine.Text.Split.{
  getlines, join, ended, getlines_token, getlines_last, getlines_text,
}
use session_affinity_engine.Security.{octet_valid, octets_valid, is_valid_ipv4}
use session_affinity_engine.Security.Octet.{octet_valid_sound, octet_valid-to_string}

-- Four numbers with dots between them, and what follows.
abbrev pub dotted : ℕ → ℕ → ℕ → ℕ → Bytes → Bytes
dotted a b c d rest =
    to_string a
    ++ (b'.' ∷ (to_string b ++ (b'.' ∷ (to_string c ++ (b'.' ∷ (to_string d ++ rest))))))

-- Four numbers up to 255, printed without leading zeros, with dots between them. A dot may follow.
pub record IsIpv4 (s : Bytes) : Type 0 where
  pub a : ℕ
  pub b : ℕ
  pub c : ℕ
  pub d : ℕ
  pub a_byte : a ≤ 255
  pub b_byte : b ≤ 255
  pub c_byte : c ≤ 255
  pub d_byte : d ≤ 255
  pub text : (s ≡ dotted a b c d []) ⊎ (s ≡ dotted a b c d (b'.' ∷ []))

octets_count :
    (os : List Bytes) (n : ℕ)
    → octets_valid os n ≡ true
    → (length os + n ≡ 4) × All (λ o. octet_valid o ≡ true) os
unfolding octets_valid
octets_count [] n h = (ground arith, tt)
octets_count (o ∷ os) n h =
    let passes : octet_valid o ≡ true = ground arith in
    let (count, rest) = octets_count os (n + 1) (ground arith) in (omega arith, (passes, rest))

spelled :
    (s p q r t : Bytes) (a b c d : ℕ)
    → p ≡ to_string a
    → q ≡ to_string b
    → r ≡ to_string c
    → t ≡ to_string d
    → (s ≡ join b'.' (p ∷ q ∷ r ∷ t ∷ [])) ⊎ (s ≡ ended b'.' (p ∷ q ∷ r ∷ t ∷ []))
    → (s ≡ dotted a b c d []) ⊎ (s ≡ dotted a b c d (b'.' ∷ []))
spelled s p q r t a b c d pa qb rc td (inl e) =
    inl (e ∙ rw (pa, qb, rc, td) (rw (append-nil (to_string d))))
spelled s p q r t a b c d pa qb rc td (inr e) = inr (e ∙ rw (pa, qb, rc, td))

four_octets :
    (s : Bytes) (os : List Bytes)
    → octets_valid os 0 ≡ true
    → (s ≡ join b'.' os) ⊎ (s ≡ ended b'.' os)
    → IsIpv4 s
four_octets s (p ∷ q ∷ r ∷ t ∷ []) h text =
    let (_, v) = octets_count (p ∷ q ∷ r ∷ t ∷ []) 0 h in
    let (a, a_byte, pa) = octet_valid_sound p v.0 in
    let (b, b_byte, qb) = octet_valid_sound q v.1.0 in
    let (c, c_byte, rc) = octet_valid_sound r v.1.1.0 in
    let (d, d_byte, td) = octet_valid_sound t v.1.1.1.0 in
    record {
      a = a;
      b = b;
      c = c;
      d = d;
      a_byte = a_byte;
      b_byte = b_byte;
      c_byte = c_byte;
      d_byte = d_byte;
      text = spelled s p q r t a b c d pa qb rc td text;
    }
four_octets s os h text = absurd (omega (arith, (octets_count os 0 h).0))

is_valid_ipv4_octets :
    (s : Bytes) → is_valid_ipv4 s ≡ true → octets_valid (getlines b'.' s) 0 ≡ true
unfolding is_valid_ipv4
is_valid_ipv4_octets s h = ground arith

getlines-dotted :
    (a b c d : ℕ) (rest : Bytes)
    → getlines b'.' (dotted a b c d rest)
      ≡ to_string a ∷ to_string b ∷ to_string c ∷ getlines b'.' (to_string d ++ rest)
unfolding is_digit
getlines-dotted a b c d rest = rw (
  getlines_token b'.' (to_string a) _ (to_string-Lacks b'.' a refl),
  getlines_token b'.' (to_string b) _ (to_string-Lacks b'.' b refl),
  getlines_token b'.' (to_string c) _ (to_string-Lacks b'.' c refl),
)

getlines_number : (d : ℕ) → getlines b'.' (to_string d) ≡ to_string d ∷ []
unfolding is_digit
getlines_number d =
    let (c, r, e) = to_string_cons d in
    rw e (getlines_last b'.' c r (subst (Lacks b'.') e (to_string-Lacks b'.' d refl)))

getlines_number_dot : (d : ℕ) → getlines b'.' (to_string d ++ b'.' ∷ []) ≡ to_string d ∷ []
unfolding is_digit getlines
getlines_number_dot d = getlines_token b'.' (to_string d) [] (to_string-Lacks b'.' d refl)

accept :
    (s : Bytes) (a b c d : ℕ)
    → a ≤ 255
    → b ≤ 255
    → c ≤ 255
    → d ≤ 255
    → getlines b'.' s ≡ to_string a ∷ to_string b ∷ to_string c ∷ to_string d ∷ []
    → is_valid_ipv4 s ≡ true
unfolding is_valid_ipv4 octets_valid getlines
accept [] a b c d ha hb hc hd e = cc
accept (x ∷ s) a b c d ha hb hc hd e = ground (
  arith,
  octet_valid-to_string a ha,
  octet_valid-to_string b hb,
  octet_valid-to_string c hc,
  octet_valid-to_string d hd,
  ap (λ os. octets_valid os 0) e,
)

lines_of :
    (s : Bytes) (a b c d : ℕ)
    → (s ≡ dotted a b c d []) ⊎ (s ≡ dotted a b c d (b'.' ∷ []))
    → getlines b'.' s ≡ to_string a ∷ to_string b ∷ to_string c ∷ to_string d ∷ []
lines_of s a b c d (inl e) =
    rw (e, getlines-dotted a b c d [], append-nil (to_string d), getlines_number d)
lines_of s a b c d (inr e) = rw (e, getlines-dotted a b c d (b'.' ∷ []), getlines_number_dot d)

-- An address is accepted exactly when it is four decimal numbers from 0 to 255, without leading zeros
-- and with dots between them, or that with one more dot at its end.
pub is_valid_ipv4_iff : (s : Bytes) → (is_valid_ipv4 s ≡ true) ↔ IsIpv4 s
is_valid_ipv4_iff s = (
  λ h. four_octets s (getlines b'.' s) (is_valid_ipv4_octets s h) (getlines_text b'.' s),
  λ v.
      accept s v.a v.b v.c v.d v.a_byte v.b_byte v.c_byte v.d_byte
        (lines_of s v.a v.b v.c v.d v.text),
)
