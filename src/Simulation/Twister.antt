-- ===== src/Simulation/Twister.antt =====
-- std::mt19937, the generator that generateTestTuples of src/main.cpp draws its source ports from: the
-- 624 latest words of its sequence, the oldest first, one more word for each draw.
use Prim.Native.Nat.{bit_xor, bit_and}
use session_affinity_engine.Base.{
  ℕ, zero, suc, ◌+◌, ◌*◌, ◌/◌, ◌%◌, ◌^◌, List, [], ◌∷◌, ◌++◌, ◌==◌, if◌then◌else◌,
}

abbrev pub Words : Type 0
Words = List ℕ

-- The words of a seed, each from the word before it and its index.
seed_words : ℕ → ℕ → ℕ → Words
seed_words i previous zero = []
seed_words i previous (suc rounds) =
    let x = (1812433253 * bit_xor previous (previous / 2 ^ 30) + i) % 2 ^ 32 in
    x ∷ seed_words (i + 1) x rounds

unfoldable pub seeded : ℕ → Words
unfolding seed_words
seeded seed = seed % 2 ^ 32 ∷ seed_words 1 (seed % 2 ^ 32) 623

-- The highest bit of one word before the lower 31 bits of the next.
twist : ℕ → ℕ → ℕ
twist x y =
    let mixed = x / 2 ^ 31 * 2 ^ 31 + y % 2 ^ 31 in
    bit_xor (mixed / 2) (if mixed % 2 == 1 then 2567483615 else 0)

temper : ℕ → ℕ
temper z0 =
    let z1 = bit_xor z0 (z0 / 2 ^ 11) in
    let z2 = bit_xor z1 (bit_and (z1 * 2 ^ 7) 2636928640) in
    let z3 = bit_xor z2 (bit_and (z2 * 2 ^ 15) 4022730752) in bit_xor z3 (z3 / 2 ^ 18)

-- A word of the sequence, which is there wherever the generator reads one.
word_at : Words → ℕ → ℕ
word_at [] i = 0
word_at (w ∷ words) zero = w
word_at (w ∷ words) (suc i) = word_at words i

-- `rng()`: the generator moves on and returns its new word, tempered. It always holds 624 words.
unfoldable pub draw : Words → Words × ℕ
unfolding twist temper word_at
draw (x ∷ y ∷ words) =
    let next = bit_xor (word_at words 395) (twist x y) in (y ∷ (words ++ next ∷ []), temper next)
draw words = (words, 0)
