-- ===== src/RateLimiter/Guarantee.antt =====
-- The promise of the rate limiter over any history of calls of any clients.
use session_affinity_engine.Base.{
  ℕ, ◌+◌, ◌≤◌, ◌≡◌, refl, ap, subst₂, ◌∙◌, Bool, true, false, ◌&&◌, List, [], ◌∷◌, ◌++◌, arith, ltb,
  leb, if◌then◌else◌, length, Bool-cases, inl, inr,
}
use session_affinity_engine.Text.{Bytes, codes, str_eq, str_eq→eq}
use session_affinity_engine.Window.{
  seconds, evict, IsRising, From, From-mono, tally, tally-append, tally-le-length, tally-evict-le,
  tally-evict,
}
use session_affinity_engine.RateLimiter.{
  RequestRecord, RateLimiter, new, evict_expired, rejected, allowed, queue_of, allow_request,
}
use session_affinity_engine.RateLimiter.Decision.{
  time, verdict_record, verdict_time, allow_request_limits, allow_request_verdict,
  queue_of-allow_request,
}
use session_affinity_engine.Dict.{find}

-- A call of `allowRequest`, with the readings of the two clocks that it makes.
pub record Call : Type 0 where
  pub client : Bytes
  pub now : ℕ
  pub wall : Bytes

abbrev pub after : RateLimiter → Call → RateLimiter
after r c = (allow_request r c.client c.now c.wall).0

abbrev pub passes : RateLimiter → Call → Bool
passes r c = (allow_request r c.client c.now c.wall).1

-- How many calls of a client are allowed, of those made in the window that ends at `end`.
unfoldable pub allowed_in_window : Bytes → ℕ → RateLimiter → List Call → ℕ
allowed_in_window key end r [] = 0
allowed_in_window key end r (c ∷ cs) =
    (if passes r c
        && str_eq c.client key
        && leb c.now end
        && leb end (c.now + seconds r.window_seconds)
      then 1
      else 0)
    + allowed_in_window key end (after r c) cs

is_allowed : RequestRecord → Bool
is_allowed x = str_eq x.status (codes "ALLOWED")

-- An allowed record that is still in the window at `end`.
in_window : ℕ → ℕ → RequestRecord → Bool
unfolding is_allowed
in_window window end x = is_allowed x && leb end (x.timestamp + window)

tally-in_window-le :
    (window end : ℕ) (q : List RequestRecord)
    → tally time (in_window window end) q ≤ tally time is_allowed q
unfolding tally in_window
tally-in_window-le window end [] = omega arith
tally-in_window-le window end (x ∷ q) = ground (arith, tally-in_window-le window end q)

late_calls :
    (key : Bytes) (end : ℕ) (r : RateLimiter) (cs : List Call)
    → From (λ c. c.now) (end + 1) cs
    → allowed_in_window key end r cs ≡ 0
unfolding allowed_in_window
late_calls key end r [] f = refl
late_calls key end r (c ∷ cs) f = ground (arith, late_calls key end (after r c) cs f.1, f.0)

is_allowed-verdict :
    (r : RateLimiter) (ok : Bool) (now : ℕ) (wall : Bytes)
    → is_allowed (verdict_record r ok now wall) ≡ ok
unfolding is_allowed allowed rejected str_eq
is_allowed-verdict r true now wall = refl
is_allowed-verdict r false now wall = refl

module _ (r : RateLimiter) (c : Call) (key : Bytes) where
  pub after_same :
      str_eq c.client key ≡ true
      → queue_of (after r c) key
        ≡ evict_expired r (queue_of r key) c.now ++ verdict_record r (passes r c) c.now c.wall ∷ []
  after_same e =
      queue_of-allow_request r c.client c.now c.wall key
      ∙ rw e (
          ap
            (λ k.
              evict_expired r (queue_of r k) c.now
              ++ verdict_record r (passes r c) c.now c.wall ∷ [])
            (str_eq→eq c.client key e))

  pub after_other : str_eq c.client key ≡ false → queue_of (after r c) key ≡ queue_of r key
  after_other e = queue_of-allow_request r c.client c.now c.wall key ∙ rw e

  pub passes_room :
      str_eq c.client key ≡ true
      → passes r c ≡ ltb (length (evict_expired r (queue_of r key) c.now)) r.max_requests
  passes_room e =
      allow_request_verdict r c.client c.now c.wall
      ∙ ap (λ k. ltb (length (evict_expired r (queue_of r k) c.now)) r.max_requests)
          (str_eq→eq c.client key e)

  -- A client never has more allowed records than the limit.
  after-bounded :
      tally time is_allowed (queue_of r key) ≤ r.max_requests
      → tally time is_allowed (queue_of (after r c) key) ≤ r.max_requests
  unfolding evict_expired
  after-bounded h = elim (Bool-cases (str_eq c.client key)) [
    | inl same ↦
        let x = verdict_record r (passes r c) c.now c.wall in
        let q = evict time c.now (seconds r.window_seconds) (queue_of r key) in
        rw (after_same same, tally-append time is_allowed q x)
          (ground (
            arith,
            is_allowed-verdict r (passes r c) c.now c.wall,
            passes_room same,
            tally-le-length time is_allowed q,
            tally-evict-le time is_allowed c.now (seconds r.window_seconds) (queue_of r key),
          ))
    | inr other ↦ rw (after_other other) h
  ]

  -- What a call adds to the allowed records of the window that ends at `end`.
  after-in_window :
      (end : ℕ)
      → c.now ≤ end
      → tally time (in_window (seconds r.window_seconds) end) (queue_of (after r c) key)
        ≡ (if passes r c && str_eq c.client key && leb end (c.now + seconds r.window_seconds)
            then 1
            else 0)
          + tally time (in_window (seconds r.window_seconds) end) (queue_of r key)
  unfolding evict_expired in_window
  after-in_window end h = elim (Bool-cases (str_eq c.client key)) [
    | inl same ↦
        let x = verdict_record r (passes r c) c.now c.wall in
        let test = in_window (seconds r.window_seconds) end in
        let q = evict time c.now (seconds r.window_seconds) (queue_of r key) in
        rw (after_same same, tally-append time test q x)
          (ground (
            arith,
            is_allowed-verdict r (passes r c) c.now c.wall,
            verdict_time r (passes r c) c.now c.wall,
            tally-evict time test c.now (seconds r.window_seconds) (queue_of r key)
                (λ y recent. ground arith),
          ))
    | inr other ↦ rw (after_other other, other) (ground arith)
  ]

allowed_in_window-le :
    (key : Bytes) (end : ℕ) (r : RateLimiter) (cs : List Call)
    → IsRising (λ c. c.now) cs
    → tally time is_allowed (queue_of r key) ≤ r.max_requests
    → allowed_in_window key end r cs
        + tally time (in_window (seconds r.window_seconds) end) (queue_of r key)
      ≤ r.max_requests
unfolding allowed_in_window
allowed_in_window-le key end r [] rising h =
    omega (arith, tally-in_window-le (seconds r.window_seconds) end (queue_of r key))
allowed_in_window-le key end r (c ∷ cs) rising h = elim (Bool-cases (leb c.now end)) [
  | inl early ↦
      let (limit, window) = allow_request_limits r c.client c.now c.wall in
      let rest =
        allowed_in_window-le key end (after r c) cs rising.1 (rw limit (after-bounded r c key h)) in
      let here =
        subst₂
          (λ (m w : ℕ).
            allowed_in_window key end (after r c) cs
              + tally time (in_window (seconds w) end) (queue_of (after r c) key)
            ≤ m)
          limit window rest in
      ground (arith, here, after-in_window r c key end)
  | inr late ↦ ground (
    arith,
    late_calls key end (after r c) cs
        (From-mono (λ d. d.now) (end + 1) c.now cs (ground arith) rising.0),
    tally-in_window-le (seconds r.window_seconds) end (queue_of r key),
  )
]

-- Starting from an empty limiter and whatever clients call it, in order of time, at most the limit of
-- one client's calls are allowed of those made in any one window, wherever the window ends.
pub window_guarantee :
    (window limit : ℕ) (key : Bytes) (end : ℕ) (calls : List Call)
    → IsRising (λ c. c.now) calls
    → allowed_in_window key end (new window limit) calls ≤ limit
unfolding new find tally
window_guarantee window limit key end calls rising =
    omega (arith, allowed_in_window-le key end (new window limit) calls rising (omega arith))
