-- ===== src/Simulation/Traffic.antt =====
-- generateTestTuples of src/main.cpp, and why its tuples are the traffic the demonstration needs: all of
-- them pass validation, and up to 254 of them have a session each.
use mathlib.Core.List.{tail}
use mathlib.Core.Option.{some-injective}
use session_affinity_engine.Base.{
  ◌≢◌, ℕ, zero, suc, ◌+◌, ◌%◌, ◌^◌, ◌≤◌, ◌<◌, ◌≡◌, ◌⊎◌, append-nil, inl, inr, refl, ap, sym, subst,
  ◌∙◌, Bool, true, false, some, List, [], ◌∷◌, ◌++◌, map, ◌==◌, if◌then◌else◌, get_elem?, arith,
}
use session_affinity_engine.Text.{Bytes, codes, to_upper}
use session_affinity_engine.Text.Decimal.{digits, to_string, to_string_inj}
use session_affinity_engine.FiveTuple.{FiveTuple, to_key}
use session_affinity_engine.Security.{validate_tuple}
use session_affinity_engine.Security.Tuples.{
  IsValidTuple, validate_tuple_iff, to_key-validate_tuple_inj,
}
use session_affinity_engine.Simulation.Twister.{Words, seeded, draw}

-- The tuple of round `i`, for the number that the generator gave.
test_tuple : ℕ → ℕ → FiveTuple
test_tuple i word = record {
  src_ip = codes "192.168.1." ++ to_string (i % 254 + 1);
  src_port = (10000 + word % 55000) % 2 ^ 16;
  dst_ip = codes "10.0.0." ++ to_string (i % 8 + 1);
  dst_port = 80;
  protocol = if i % 3 == 0 then codes "UDP" else codes "TCP";
}

tuples_from : ℕ → ℕ → Words → List FiveTuple
unfolding test_tuple
tuples_from i zero rng = []
tuples_from i (suc rounds) rng =
    let (rng', word) = draw rng in test_tuple i word ∷ tuples_from (i + 1) rounds rng'

unfoldable pub generate_test_tuples : ℕ → List FiveTuple
unfolding tuples_from
generate_test_tuples count = tuples_from 0 count (seeded 42)

tuples_from-elem :
    (i n : ℕ) (rng : Words) (k : ℕ) (ft : FiveTuple)
    → get_elem? (tuples_from i n rng) k ≡ some ft
    → (word : ℕ) × ((k < n) × (ft ≡ test_tuple (i + k) word))
unfolding tuples_from
tuples_from-elem i zero rng k ft e = absurd (ground arith)
tuples_from-elem i (suc n) rng zero ft e = (
  (draw rng).1,
  (omega arith, sym (some-injective _ _ e) ∙ ap (λ j. test_tuple j (draw rng).1) (omega arith)),
)
tuples_from-elem i (suc n) rng (suc k) ft e =
    let (word, (b, same)) = tuples_from-elem (i + 1) n (draw rng).0 k ft e in
    (word, (omega arith, same ∙ ap (λ j. test_tuple j word) (omega arith)))

protocol_known :
    (b : Bool)
    → (map to_upper (if b then codes "UDP" else codes "TCP") ≡ codes "TCP")
      ⊎ (map to_upper (if b then codes "UDP" else codes "TCP") ≡ codes "UDP")
unfolding to_upper
protocol_known true = inr refl
protocol_known false = inl refl

clients_text :
    (s : Bytes)
    → codes "192.168.1." ++ s
      ≡ to_string 192 ++ (b'.' ∷ (to_string 168 ++ (b'.' ∷ (to_string 1 ++ (b'.' ∷ (s ++ []))))))
unfolding to_string digits
clients_text s = ap (λ z. codes "192.168.1." ++ z) (sym (append-nil s))

servers_text :
    (s : Bytes)
    → codes "10.0.0." ++ s
      ≡ to_string 10 ++ (b'.' ∷ (to_string 0 ++ (b'.' ∷ (to_string 0 ++ (b'.' ∷ (s ++ []))))))
unfolding to_string digits
servers_text s = ap (λ z. codes "10.0.0." ++ z) (sym (append-nil s))

test_tuple-IsValidTuple : (i word : ℕ) → IsValidTuple (test_tuple i word)
unfolding test_tuple
test_tuple-IsValidTuple i word = record {
  src = record {
    a = 192;
    b = 168;
    c = 1;
    d = i % 254 + 1;
    a_byte = omega arith;
    b_byte = omega arith;
    c_byte = omega arith;
    d_byte = omega arith;
    text = inl (clients_text (to_string (i % 254 + 1)));
  };
  dst = record {
    a = 10;
    b = 0;
    c = 0;
    d = i % 8 + 1;
    a_byte = omega arith;
    b_byte = omega arith;
    c_byte = omega arith;
    d_byte = omega arith;
    text = inl (servers_text (to_string (i % 8 + 1)));
  };
  src_port_given = omega arith;
  dst_port_given = omega arith;
  known_protocol = protocol_known (i % 3 == 0);
}

-- A tuple of the generated traffic passes validation, and its source port is at least 10000 and less than
-- 65000, so that the 16 bits of the port hold it.
pub generate_test_tuples-valid :
    (count k : ℕ) (ft : FiveTuple)
    → get_elem? (generate_test_tuples count) k ≡ some ft
    → ((validate_tuple ft).valid ≡ true) × ((10000 ≤ ft.src_port) × (ft.src_port < 65000))
unfolding generate_test_tuples test_tuple
generate_test_tuples-valid count k ft e =
    let (word, (b, same)) = tuples_from-elem 0 count (seeded 42) k ft e in
    subst (λ x. ((validate_tuple x).valid ≡ true) × ((10000 ≤ x.src_port) × (x.src_port < 65000)))
      (sym same)
      (
        (validate_tuple_iff (test_tuple (0 + k) word)).1 (test_tuple-IsValidTuple (0 + k) word),
        (omega arith, omega arith),
      )

append-cancel : (p s t : Bytes) → p ++ s ≡ p ++ t → s ≡ t
append-cancel [] s t e = e
append-cancel (x ∷ p) s t e = append-cancel p s t (ap tail e)

-- Up to 254 generated tuples have pairwise different session keys.
pub generate_test_tuples-distinct :
    (count j k : ℕ) (a b : FiveTuple)
    → count ≤ 254
    → j ≢ k
    → get_elem? (generate_test_tuples count) j ≡ some a
    → get_elem? (generate_test_tuples count) k ≡ some b
    → to_key a ≢ to_key b
unfolding generate_test_tuples test_tuple
generate_test_tuples-distinct count j k a b few apart ea eb same =
    let (wa, (ja, sa)) = tuples_from-elem 0 count (seeded 42) j a ea in
    let (wb, (kb, sb)) = tuples_from-elem 0 count (seeded 42) k b eb in
    let equal =
      to_key-validate_tuple_inj a b (generate_test_tuples-valid count j a ea).0
        (generate_test_tuples-valid count k b eb).0 same in
    let numbers =
      to_string_inj ((0 + j) % 254 + 1) ((0 + k) % 254 + 1)
        (append-cancel (codes "192.168.1.") _ _ (ap (λ x. x.src_ip) (sym sa ∙ equal ∙ sb))) in
    apart (omega (arith, numbers))
