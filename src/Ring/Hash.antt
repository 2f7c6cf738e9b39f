-- ===== src/Ring/Hash.antt =====
-- ConsistentHashRing::hashKey, FNV-1a over 64 bits, and the positions of the virtual nodes.
use Prim.Native.Nat.{bit_xor}
use session_affinity_engine.Base.{
  ℕ, zero, suc, ◌+◌, ◌-◌, ◌*◌, ◌%◌, ◌^◌, ◌<◌, Bool, false, ◌||◌, [], ◌∷◌, ◌++◌, arith, ltb, ◌==◌,
  if◌then◌else◌,
}
use session_affinity_engine.Text.{Bytes, codes}
use session_affinity_engine.Text.Decimal.{to_string}

abbrev pub size_mod : ℕ
size_mod = 2 ^ 64

-- `static_cast<std::size_t>(c)` of a signed `char`.
extend : ℕ → ℕ
extend c = if ltb c 128 then c else c + size_mod - 256

mix : ℕ → Bytes → ℕ
unfolding extend
mix hash [] = hash
mix hash (c ∷ key) = mix (bit_xor hash (extend c) * 1099511628211 % size_mod) key

unfoldable pub hash_key : Bytes → ℕ
unfolding mix
hash_key key = mix 14695981039346656037 key

-- "server_<id>_vnode_<i>"
unfoldable pub vnode_key : ℕ → ℕ → Bytes
vnode_key server i = codes "server_" ++ (to_string server ++ (codes "_vnode_" ++ to_string i))

unfoldable pub vnode_hash : ℕ → ℕ → ℕ
unfolding vnode_key
vnode_hash server i = hash_key (vnode_key server i)

mix-lt : (hash : ℕ) (key : Bytes) → hash < size_mod → mix hash key < size_mod
unfolding mix
mix-lt hash [] h = h
mix-lt hash (c ∷ key) h =
    mix-lt (bit_xor hash (extend c) * 1099511628211 % size_mod) key (omega arith)

-- A hash is a `size_t`.
pub hash_key-lt : (key : Bytes) → hash_key key < size_mod
unfolding hash_key
hash_key-lt key = mix-lt _ key (omega arith)

pub vnode_hash-lt : (server i : ℕ) → vnode_hash server i < size_mod
unfolding vnode_hash
vnode_hash-lt server i = hash_key-lt (vnode_key server i)

-- The positions of a server's virtual nodes from `i` on.
unfoldable pub is_vnode : ℕ → ℕ → ℕ → ℕ → Bool
is_vnode server i zero j = false
is_vnode server i (suc rounds) j = vnode_hash server i == j || is_vnode server (i + 1) rounds j
