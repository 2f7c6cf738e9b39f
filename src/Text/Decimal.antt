-- ===== src/Text/Decimal.antt =====
-- std::to_string of a number that is not negative, and std::stoi.
use session_affinity_engine.Base.{
  ℕ, zero, suc, ◌+◌, ◌-◌, ◌*◌, ◌/◌, ◌%◌, ◌^◌, ◌<◌, ◌≡◌, refl, sym, ap, subst, ◌∙◌, Bool, true,
  false, ◌&&◌, ◌||◌, Option, none, some, ℤ, pos, negsuc, [], ◌∷◌, arith, leb, ltb, ◌==◌,
  if◌then◌else◌, Bool-cases, inl, inr,
}
use native.Mathlib.Nat.{pow-suc}
use session_affinity_engine.Text.{Bytes, is_digit, IsDigits, Lacks}

-- The digits of `n` in front of `out`; `n + 1` rounds are enough.
unfoldable pub digits : ℕ → ℕ → Bytes → Bytes
digits zero n out = out
digits (suc fuel) n out =
    let rest = digits fuel (n / 10) ((b'0' + n % 10) ∷ out) in
    if n / 10 == 0 then (b'0' + n % 10) ∷ out else rest

unfoldable pub to_string : ℕ → Bytes
unfolding digits
to_string n = digits (suc n) n []

-- The number that a text of digits spells behind `acc`.
abbrev pub value : ℕ → Bytes → ℕ
value acc [] = acc
value acc (c ∷ s) = value (acc * 10 + (c - b'0')) s

is_space : ℕ → Bool
is_space c = c == 32 || (leb 9 c && leb c 13)

skip_spaces : Bytes → Bytes
unfolding is_space
skip_spaces [] = []
skip_spaces (c ∷ s) = elim (is_space c) [ true ↦ skip_spaces s | false ↦ c ∷ s ]

-- The digits at the head of the text; what follows them is ignored.
read_digits : ℕ → Bytes → ℕ
read_digits acc [] = acc
read_digits acc (c ∷ s) = elim (is_digit c) [
  | true ↦ read_digits (acc * 10 + (c - b'0')) s
  | false ↦ acc
]

-- `std::invalid_argument` where no digit stands, as `none`.
magnitude : Bytes → Option ℕ
magnitude [] = none
magnitude (c ∷ s) = if is_digit c then some (read_digits 0 (c ∷ s)) else none

to_negative : ℕ → ℤ
to_negative zero = pos 0
to_negative (suc n) = negsuc n

-- `std::out_of_range` where an `int` of 32 bits does not hold the number, as `none`.
positive : Option ℕ → Option ℤ
positive none = none
positive (some n) = if ltb n (2 ^ 31) then some (pos n) else none

negative : Option ℕ → Option ℤ
negative none = none
negative (some n) = if leb n (2 ^ 31) then some (to_negative n) else none

read_sign : Bytes → Option ℤ
read_sign [] = none
read_sign (c ∷ s) =
    if c == b'-'
    then negative (magnitude s)
    else if c == b'+'
    then positive (magnitude s)
    else positive (magnitude (c ∷ s))

unfoldable pub stoi : Bytes → Option ℤ
unfolding skip_spaces read_digits magnitude to_negative positive negative read_sign is_digit
stoi s = read_sign (skip_spaces s)

value-digits : (fuel n : ℕ) (out : Bytes) → n < fuel → value 0 (digits fuel n out) ≡ value n out
unfolding digits
value-digits zero n out h = absurd (omega arith)
value-digits (suc fuel) n out h = ground (arith, value-digits fuel (n / 10) ((b'0' + n % 10) ∷ out))

digits-IsDigits : (fuel n : ℕ) (out : Bytes) → IsDigits out → IsDigits (digits fuel n out)
unfolding digits is_digit
digits-IsDigits zero n out h = h
digits-IsDigits (suc fuel) n out h =
    ground (arith, digits-IsDigits fuel (n / 10) ((b'0' + n % 10) ∷ out))

-- Digits in front of a text that is not empty make one that is not empty.
digits_cons :
    (fuel n b : ℕ) (out : Bytes) → (c : ℕ) × (r : Bytes) × (digits fuel n (b ∷ out) ≡ c ∷ r)
unfolding digits
digits_cons zero n b out = (b, out, refl)
digits_cons (suc fuel) n b out = elim (Bool-cases (n / 10 == 0)) [
  | inl e ↦ (b'0' + n % 10, b ∷ out, rw e)
  | inr e ↦ rw e (digits_cons fuel (n / 10) (b'0' + n % 10) (b ∷ out))
]

pub to_string-IsDigits : (n : ℕ) → IsDigits (to_string n)
unfolding to_string
to_string-IsDigits n = digits-IsDigits (suc n) n [] tt

pub value-to_string : (n : ℕ) → value 0 (to_string n) ≡ n
unfolding to_string
value-to_string n = value-digits (suc n) n [] (omega arith)

pub to_string_cons : (n : ℕ) → (c : ℕ) × (r : Bytes) × (to_string n ≡ c ∷ r)
unfolding to_string digits
to_string_cons n = elim (Bool-cases (n / 10 == 0)) [
  | inl e ↦ (b'0' + n % 10, [], rw e)
  | inr e ↦ rw e (digits_cons n (n / 10) (b'0' + n % 10) [])
]

pub to_string_inj : (m n : ℕ) → to_string m ≡ to_string n → m ≡ n
to_string_inj m n e = omega (arith, value-to_string m, value-to_string n, ap (value 0) e)

read_digits-value : (acc : ℕ) (s : Bytes) → IsDigits s → read_digits acc s ≡ value acc s
unfolding read_digits
read_digits-value acc [] h = refl
read_digits-value acc (c ∷ s) h =
    rw (h.0, read_digits) (read_digits-value (acc * 10 + (c - b'0')) s h.1)

-- A text of digits that spells an `int` is read as that number.
pub stoi_digits :
    (c : ℕ) (s : Bytes)
    → IsDigits (c ∷ s)
    → value 0 (c ∷ s) < 2 ^ 31
    → stoi (c ∷ s) ≡ some (pos (value 0 (c ∷ s)))
unfolding stoi is_digit
stoi_digits c s h small = ground (arith, read_digits-value (c - b'0') s h.1)

pub stoi-to_string : (n : ℕ) → n < 2 ^ 31 → stoi (to_string n) ≡ some (pos n)
stoi-to_string n h =
    let (c, r, e) = to_string_cons n in
    let v : value 0 (c ∷ r) ≡ n = ap (value 0) (sym e) ∙ value-to_string n in
    ap stoi e
    ∙ stoi_digits c r (subst IsDigits e (to_string-IsDigits n)) (omega arith)
    ∙ ap (λ k. some (pos k)) v

IsDigits-Lacks : (sep : ℕ) (s : Bytes) → is_digit sep ≡ false → IsDigits s → Lacks sep s
IsDigits-Lacks sep [] e h = tt
IsDigits-Lacks sep (c ∷ s) e h = (ground arith, IsDigits-Lacks sep s e h.1)

pub to_string-Lacks : (sep n : ℕ) → is_digit sep ≡ false → Lacks sep (to_string n)
to_string-Lacks sep n e = IsDigits-Lacks sep (to_string n) e (to_string-IsDigits n)

-- Any fuel that covers the digits prints the same text.
digits_enough :
    (f g n : ℕ) (out : Bytes) → n < 10 ^ suc f → n < g → digits (suc f) n out ≡ digits g n out
unfolding digits
digits_enough f zero n out h k = absurd (omega arith)
digits_enough zero (suc g) n out h k = ground arith
digits_enough (suc f) (suc g) n out h k =
    let less : n / 10 < 10 ^ suc f = omega (arith, pow-suc 10 (suc f)) in
    elim (Bool-cases (n / 10 == 0)) [
      | inl e ↦ rw e
      | inr e ↦ rw e (digits_enough f g (n / 10) ((b'0' + n % 10) ∷ out) less (ground arith))
    ]

-- A number of up to three digits, digit by digit.
pub to_string_small :
    (n : ℕ)
    → n < 1000
    → to_string n ≡ (
        if n / 10 == 0
        then (b'0' + n % 10) ∷ []
        else if n / 10 / 10 == 0
        then (b'0' + n / 10 % 10) ∷ (b'0' + n % 10) ∷ []
        else (b'0' + n / 10 / 10 % 10) ∷ (b'0' + n / 10 % 10) ∷ (b'0' + n % 10) ∷ [])
unfolding to_string digits
to_string_small n h = sym (digits_enough 2 (suc n) n [] h (omega arith)) ∙ ground arith
