-- ===== src/Security/Octet.antt =====
-- One octet of an address, in the loop of Security::isValidIPv4.
use session_affinity_engine.Base.{
  ℕ, zero, suc, ◌+◌, ◌≤◌, ◌<◌, ◌≡◌, refl, Bool, true, false, ◌&&◌, ◌==◌, [], ◌∷◌, arith, Bool-cases,
  inl, inr,
}
use session_affinity_engine.Text.{Bytes, is_digit, IsDigits}
use session_affinity_engine.Text.Decimal.{to_string, stoi, value, stoi_digits, to_string_small}
use session_affinity_engine.Security.{octet_valid, all_digits, leading_zero, in_byte}

-- The first `rounds` numbers from `start` on are valid octets.
run_valid : ℕ → ℕ → Bool
run_valid start zero = true
run_valid start (suc rounds) = octet_valid (to_string start) && run_valid (start + 1) rounds

octet_valid-run_valid :
    (start rounds n : ℕ)
    → run_valid start rounds ≡ true
    → start ≤ n
    → n < start + rounds
    → octet_valid (to_string n) ≡ true
unfolding run_valid
octet_valid-run_valid start zero n all low high = absurd (omega arith)
octet_valid-run_valid start (suc rounds) n all low high = elim (Bool-cases (start == n)) [
  | inl this ↦ ground arith
  | inr later ↦ ground (arith, octet_valid-run_valid (start + 1) rounds n)
]

every_octet : run_valid 0 256 ≡ true
unfolding run_valid octet_valid to_string stoi
every_octet = refl

pub octet_valid-to_string : (n : ℕ) → n ≤ 255 → octet_valid (to_string n) ≡ true
octet_valid-to_string n h = octet_valid-run_valid 0 256 n every_octet (omega arith) (omega arith)

all_digits-IsDigits : (s : Bytes) → all_digits s ≡ true → IsDigits s
unfolding all_digits
all_digits-IsDigits [] h = tt
all_digits-IsDigits (c ∷ s) h = (ground arith, all_digits-IsDigits s (ground arith))

digit_range : (c : ℕ) → is_digit c ≡ true → (b'0' ≤ c) × (c ≤ b'9')
unfolding is_digit
digit_range c h = ground arith

-- What one to three digits without a leading zero spell is printed as those digits.
one_digit : (c : ℕ) → IsDigits (c ∷ []) → c ∷ [] ≡ to_string (value 0 (c ∷ []))
one_digit c h =
    let (lo, hi) = digit_range c h.0 in ground (arith, to_string_small (value 0 (c ∷ [])))

two_digits :
    (c d : ℕ) → IsDigits (c ∷ d ∷ []) → b'0' < c → c ∷ d ∷ [] ≡ to_string (value 0 (c ∷ d ∷ []))
two_digits c d h nz =
    let (lo, hi) = digit_range c h.0 in
    let (lo', hi') = digit_range d h.1.0 in ground (arith, to_string_small (value 0 (c ∷ d ∷ [])))

three_digits :
    (c d e : ℕ)
    → IsDigits (c ∷ d ∷ e ∷ [])
    → b'0' < c
    → c ∷ d ∷ e ∷ [] ≡ to_string (value 0 (c ∷ d ∷ e ∷ []))
three_digits c d e h nz =
    let (lo, hi) = digit_range c h.0 in
    let (lo', hi') = digit_range d h.1.0 in
    let (lo'', hi'') = digit_range e h.1.1.0 in
    ground (arith, to_string_small (value 0 (c ∷ d ∷ e ∷ [])))

-- The tests of the loop's body, each with its outcome for an octet that passes.
octet_tests :
    (o : Bytes)
    → octet_valid o ≡ true
    → (all_digits o ≡ true) × (leading_zero o ≡ false) × (in_byte (stoi o) ≡ true)
unfolding octet_valid
octet_tests o h = ground arith

read_byte :
    (c : ℕ) (s : Bytes)
    → IsDigits (c ∷ s)
    → value 0 (c ∷ s) < 1000
    → in_byte (stoi (c ∷ s)) ≡ true
    → value 0 (c ∷ s) ≤ 255
unfolding in_byte
read_byte c s d small h = ground (arith, stoi_digits c s d)

pub octet_valid_sound : (o : Bytes) → octet_valid o ≡ true → (n : ℕ) × (n ≤ 255) × (o ≡ to_string n)
unfolding leading_zero
octet_valid_sound [] h = absurd (unfold octet_valid in ground arith)
octet_valid_sound (c ∷ []) h =
    let (a, z, b) = octet_tests (c ∷ []) h in
    let d = all_digits-IsDigits (c ∷ []) a in
    let (_, hi) = digit_range c d.0 in
    (value 0 (c ∷ []), read_byte c [] d (omega arith) b, one_digit c d)
octet_valid_sound (c ∷ d ∷ []) h =
    let (a, z, b) = octet_tests (c ∷ d ∷ []) h in
    let ds = all_digits-IsDigits (c ∷ d ∷ []) a in
    let (lo, hi) = digit_range c ds.0 in
    let (_, hi') = digit_range d ds.1.0 in
    (
      value 0 (c ∷ d ∷ []),
      read_byte c (d ∷ []) ds (omega arith) b,
      two_digits c d ds (ground arith),
    )
octet_valid_sound (c ∷ d ∷ e ∷ []) h =
    let (a, z, b) = octet_tests (c ∷ d ∷ e ∷ []) h in
    let ds = all_digits-IsDigits (c ∷ d ∷ e ∷ []) a in
    let (lo, hi) = digit_range c ds.0 in
    let (_, hi') = digit_range d ds.1.0 in
    let (_, hi'') = digit_range e ds.1.1.0 in
    (
      value 0 (c ∷ d ∷ e ∷ []),
      read_byte c (d ∷ e ∷ []) ds (omega arith) b,
      three_digits c d e ds (ground arith),
    )
octet_valid_sound (c ∷ d ∷ e ∷ f ∷ s) h = absurd (unfold octet_valid in ground arith)
