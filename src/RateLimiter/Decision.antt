-- ===== src/RateLimiter/Decision.antt =====
-- What one call of RateLimiter::allowRequest decides, and what it leaves in the queues.
use session_affinity_engine.Base.{
  ℕ, ◌≡◌, ◌≢◌, refl, sym, ap, ◌∙◌, Bool, true, false, List, [], ◌∷◌, ◌++◌, arith, ltb, leb,
  if◌then◌else◌, length, Bool-cases, inl, inr,
}
use session_affinity_engine.Text.{Bytes, str_eq, str_eq_iff, str_eq_refl}
use session_affinity_engine.Dict.{find, assign, find-assign, get_or}
use session_affinity_engine.Window.{seconds, recent, IsRising, evict-eq-recent}
use session_affinity_engine.RateLimiter.{
  RequestRecord, RateLimiter, evict_expired, rejected, allowed, queue_of, allow_request,
  get_history,
}

-- The time of a record.
abbrev pub time : RequestRecord → ℕ
time x = x.timestamp

-- The record that a call leaves.
abbrev pub verdict_record : RateLimiter → Bool → ℕ → Bytes → RequestRecord
verdict_record r true now wall = allowed now wall
verdict_record r false now wall = rejected r now wall

module _ (r : RateLimiter) (key : Bytes) (now : ℕ) (wall : Bytes) where
  pub allow_request_limits :
      ((allow_request r key now wall).0.max_requests ≡ r.max_requests)
      × ((allow_request r key now wall).0.window_seconds ≡ r.window_seconds)
  unfolding allow_request
  allow_request_limits = ground arith

  pub allow_request_verdict :
      (allow_request r key now wall).1
      ≡ ltb (length (evict_expired r (queue_of r key) now)) r.max_requests
  unfolding allow_request
  allow_request_verdict = ground arith

  -- The queue of each client after the call.
  pub queue_of-allow_request :
      (j : Bytes)
      → queue_of (allow_request r key now wall).0 j ≡ (
          if str_eq key j
          then evict_expired r (queue_of r key) now
            ++ verdict_record r (allow_request r key now wall).1 now wall ∷ []
          else queue_of r j)
  unfolding allow_request
  queue_of-allow_request j =
      elim (Bool-cases (leb r.max_requests (length (evict_expired r (queue_of r key) now)))) [
        | inl full ↦ rw full (by_key j _)
        | inr room ↦ rw room (by_key j _)
      ]
    where
      by_key :
          (i : Bytes) (q : List RequestRecord)
          → get_or (find i (assign key q r.client_queues)) []
            ≡ (if str_eq key i then q else queue_of r i)
      by_key i q = rw (find-assign i key q r.client_queues) (ground arith)

get_history_lem : (r : RateLimiter) (key : Bytes) → get_history r key ≡ queue_of r key
unfolding get_history
get_history_lem r key = ground arith

evict_expired-recent :
    (r : RateLimiter) (key : Bytes) (now : ℕ)
    → IsRising time (queue_of r key)
    → evict_expired r (queue_of r key) now
      ≡ recent time now (seconds r.window_seconds) (get_history r key)
unfolding evict_expired
evict_expired-recent r key now rising =
    rw (get_history_lem r key)
      (evict-eq-recent time now (seconds r.window_seconds) (queue_of r key) rising)

pub verdict_time :
    (r : RateLimiter) (ok : Bool) (now : ℕ) (wall : Bytes)
    → (verdict_record r ok now wall).timestamp ≡ now
unfolding allowed rejected
verdict_time r true now wall = refl
verdict_time r false now wall = refl

other_key : (k j : Bytes) → j ≢ k → str_eq k j ≡ false
other_key k j ne = ground (arith, str_eq_iff k j)

-- A request is allowed exactly when fewer records than the limit, rejected ones included, are no older
-- than the window. The client's history is then those records with one for this call, at the present
-- time, and the history of every other client is unchanged. The client's queue is to be in order of
-- time, as a clock that does not run backwards leaves it.
pub allow_request_decision :
    (r : RateLimiter) (key : Bytes) (now : ℕ) (wall : Bytes)
    → IsRising time (queue_of r key)
    → let q = recent time now (seconds r.window_seconds) (get_history r key) in
      let after = allow_request r key now wall in
      (after.1 ≡ ltb (length q) r.max_requests)
      × ((x : RequestRecord) × (x.timestamp ≡ now) × (get_history after.0 key ≡ q ++ x ∷ []))
      × ((j : Bytes) → j ≢ key → get_history after.0 j ≡ get_history r j)
allow_request_decision r key now wall rising =
    let q = recent time now (seconds r.window_seconds) (get_history r key) in
    let kept : evict_expired r (queue_of r key) now ≡ q = evict_expired-recent r key now rising in
    let x = verdict_record r (allow_request r key now wall).1 now wall in
    (
      allow_request_verdict r key now wall ∙ ap (λ l. ltb (length l) r.max_requests) kept,
      (
        x,
        verdict_time r (allow_request r key now wall).1 now wall,
        get_history_lem _ key
            ∙ queue_of-allow_request r key now wall key
            ∙ rw (str_eq_refl key) (ap (λ l. l ++ x ∷ []) kept),
      ),
      λ j other.
          get_history_lem _ j
          ∙ queue_of-allow_request r key now wall j
          ∙ rw (other_key key j other) (sym (get_history_lem r j)),
    )
