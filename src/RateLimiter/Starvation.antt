-- ===== src/RateLimiter/Starvation.antt =====
-- A client that calls at a steady pace. Rejected calls leave records in the queue too, and those count
-- against the limit as the allowed ones do.
use session_affinity_engine.Base.{
  ℕ, zero, suc, ◌+◌, ◌-◌, ◌*◌, ◌≤◌, ◌≡◌, refl, ap, ◌∙◌, Bool, true, [], ◌∷◌, ◌++◌, arith, ltb, leb,
  length, length-append, Bool-cases, leb→le, ltb-false→le, inl, inr,
}
use session_affinity_engine.Text.{Bytes, str_eq_refl}
use session_affinity_engine.Dict.{find}
use session_affinity_engine.Window.{
  seconds, evict, tally, tally-append, tally-le-length, tally-evict, length-evict,
}
use session_affinity_engine.RateLimiter.{
  RequestRecord, RateLimiter, new, evict_expired, queue_of, allow_request, current_count,
}
use session_affinity_engine.RateLimiter.Decision.{
  time, verdict_record, verdict_time, allow_request_limits, allow_request_verdict,
  queue_of-allow_request,
}

module _ (window limit : ℕ) (key wall : Bytes) (start gap : ℕ) where
  -- The limiter after `n` calls, the i-th of them at `start + i * gap`.
  pub steady : ℕ → RateLimiter
  steady zero = new window limit
  steady (suc n) = (allow_request (steady n) key (start + n * gap) wall).0

  -- What the n-th call is answered.
  pub steady_verdict : ℕ → Bool
  steady_verdict n = (allow_request (steady n) key (start + n * gap) wall).1

  steady_limits : (n : ℕ) → ((steady n).max_requests ≡ limit) × ((steady n).window_seconds ≡ window)
  unfolding steady new
  steady_limits zero = (refl, refl)
  steady_limits (suc n) =
      ground (arith, steady_limits n, allow_request_limits (steady n) key (start + n * gap) wall)

  steady_queue :
      (n : ℕ)
      → queue_of (steady (suc n)) key
        ≡ evict time (start + n * gap) (seconds window) (queue_of (steady n) key)
          ++ verdict_record (steady n) (steady_verdict n) (start + n * gap) wall ∷ []
  unfolding steady steady_verdict evict_expired
  steady_queue n =
      queue_of-allow_request (steady n) key (start + n * gap) wall key
      ∙ rw (str_eq_refl key, (steady_limits n).1)

  -- The records from the time `t` on.
  since : ℕ → RequestRecord → Bool
  since t x = leb t x.timestamp

  in_reach :
      (i k : ℕ) (y : RequestRecord)
      → suc k * gap ≤ seconds window + gap
      → leb (start + i * gap) y.timestamp ≡ true
      → start + (k + i) * gap ≤ y.timestamp + seconds window
  in_reach i k y h young = omega (arith, leb→le (start + i * gap) y.timestamp young)

  -- From the i-th call on, the queue holds a record for each call as long as the window reaches back.
  steady-since :
      (i k : ℕ)
      → k * gap ≤ seconds window + gap
      → k ≤ tally time (since (start + i * gap)) (queue_of (steady (k + i)) key)
  steady-since i zero h = omega arith
  steady-since i (suc k) h =
      let n = k + i in
      let now = start + n * gap in
      let test = since (start + i * gap) in
      let x = verdict_record (steady n) (steady_verdict n) now wall in
      let q = evict time now (seconds window) (queue_of (steady n) key) in
      let next : suc k + i ≡ suc n = omega arith in
      let kept : tally time test q ≡ tally time test (queue_of (steady n) key) =
        unfold since in
        tally-evict time test now (seconds window) (queue_of (steady n) key)
          (λ y young. in_reach i k y h young) in
      let own : test x ≡ true =
        unfold since in ground (arith, verdict_time (steady n) (steady_verdict n) now wall) in
      rw (next, steady_queue n, tally-append time test q x)
        (ground (arith, steady-since i k, kept, own))

  length-steady : (n : ℕ) → length (queue_of (steady n) key) ≤ n
  unfolding steady new find
  length-steady zero = omega arith
  length-steady (suc n) =
      let x = verdict_record (steady n) (steady_verdict n) (start + n * gap) wall in
      let q = evict time (start + n * gap) (seconds window) (queue_of (steady n) key) in
      omega (
        arith,
        ap length (steady_queue n),
        length-append q (x ∷ []),
        length-evict time (start + n * gap) (seconds window) (queue_of (steady n) key),
        length-steady n,
      )

  steady_answer :
      (n : ℕ)
      → steady_verdict n
        ≡ ltb
            (length (evict time (start + n * gap) (seconds window) (queue_of (steady n) key)))
            limit
  unfolding steady_verdict evict_expired
  steady_answer n =
      allow_request_verdict (steady n) key (start + n * gap) wall ∙ ground (arith, steady_limits n)

  steady_full :
      (n : ℕ)
      → limit * gap ≤ seconds window
      → limit ≤ n
      → limit ≤ length (evict time (start + n * gap) (seconds window) (queue_of (steady n) key))
  steady_full n h late =
      let i = n - limit in
      let now : limit + i ≡ n = omega arith in
      let test = since (start + i * gap) in
      let q = evict time (start + n * gap) (seconds window) (queue_of (steady n) key) in
      let held = rw now at (steady-since i limit (omega arith)) in
      let kept : tally time test q ≡ tally time test (queue_of (steady n) key) =
        unfold since in
        tally-evict time test (start + n * gap) (seconds window) (queue_of (steady n) key)
          (λ y young. rw now at (in_reach i limit y (omega arith) young)) in
      omega (arith, held, kept, tally-le-length time test q)

  -- If the limit's number of steps fits into the window, the first calls are allowed up to the limit,
  -- and every later one is rejected for as long as the client goes on.
  pub steady_client : (n : ℕ) → limit * gap ≤ seconds window → steady_verdict n ≡ ltb n limit
  steady_client n h = elim (Bool-cases (ltb n limit)) [
    | inl early ↦ ground (
      arith,
      steady_answer n,
      length-evict time (start + n * gap) (seconds window) (queue_of (steady n) key),
      length-steady n,
    )
    | inr late ↦ ground (arith, steady_answer n, steady_full n h (ltb-false→le n limit late))
  ]

  -- The queue has no bound: it holds a record for every call, as long as the first one is in the window.
  pub steady_count : (n : ℕ) → n * gap ≤ seconds window → current_count (steady n) key ≡ n
  unfolding current_count
  steady_count n h =
      let start_now : n + 0 ≡ n = omega arith in
      let full = rw start_now at (steady-since 0 n (omega arith)) in
      ground (
        arith,
        length-steady n,
        full,
        tally-le-length time (since (start + 0 * gap)) (queue_of (steady n) key),
      )
