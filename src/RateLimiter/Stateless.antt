-- ===== src/RateLimiter/Stateless.antt =====
-- The specification of the rate limiter, a count of the calls so far, and how one call keeps to it.
use session_affinity_engine.Base.{
  if_intro, subst, ℕ, ◌+◌, ◌≤◌, ◌≡◌, refl, sym, ap, ◌∙◌, ◌&&◌, List, [], ◌∷◌, ◌++◌, arith, ltb, leb,
  if◌then◌else◌, length, Bool-cases, inl, inr,
}
use session_affinity_engine.Text.{Bytes, str_eq, str_eq_refl}
use session_affinity_engine.Window.{
  seconds, recent, IsRising, Until, Until-mono, evict-eq-recent, evict-IsRising, evict-Until,
  append-IsRising,
}
use session_affinity_engine.RateLimiter.{RequestRecord, RateLimiter, new, evict_expired, queue_of}
use session_affinity_engine.RateLimiter.Decision.{
  time, verdict_record, verdict_time, allow_request_limits,
}
use session_affinity_engine.RateLimiter.Guarantee.{
  Call, after, passes, after_same, after_other, passes_room,
}
use session_affinity_engine.Dict.{find}

-- The specification: how many of the calls are the client's and no older at `end` than the window.
unfoldable pub called : Bytes → ℕ → ℕ → List Call → ℕ
called key window end [] = 0
called key window end (c ∷ cs) =
    (if str_eq c.client key && leb end (c.now + window) then 1 else 0) + called key window end cs

-- The limiter after the calls.
unfoldable pub after_all : RateLimiter → List Call → RateLimiter
after_all r [] = r
after_all r (c ∷ cs) = after_all (after r c) cs

length-recent-append :
    (end window : ℕ) (q : List RequestRecord) (x : RequestRecord)
    → length (recent time end window (q ++ x ∷ []))
      ≡ length (recent time end window q) + (if leb end (time x + window) then 1 else 0)
unfolding recent
length-recent-append end window [] x = ground arith
length-recent-append end window (y ∷ q) x = ground (arith, length-recent-append end window q x)

-- What is recent at a later time was recent before.
recent-recent :
    (now end window : ℕ) (q : List RequestRecord)
    → now ≤ end
    → recent time end window (recent time now window q) ≡ recent time end window q
unfolding recent
recent-recent now end window [] h = refl
recent-recent now end window (x ∷ q) h = ground (arith, recent-recent now end window q h)

append-Until :
    (t : ℕ) (q : List RequestRecord) (x : RequestRecord)
    → Until time t q
    → time x ≤ t
    → Until time t (q ++ x ∷ [])
append-Until t [] x u h = (h, tt)
append-Until t (y ∷ q) x u h = (u.0, append-Until t q x u.1 h)

-- At the time `t` the queues hold what counts from then on: `count key end` records of the client's that
-- are recent at `end`.
pub record IsCounted (window limit t : ℕ) (count : Bytes → ℕ → ℕ) (r : RateLimiter) : Type 0 where
  pub window_kept : r.window_seconds ≡ window
  pub limit_kept : r.max_requests ≡ limit
  pub rising : (key : Bytes) → IsRising time (queue_of r key)
  pub past : (key : Bytes) → Until time t (queue_of r key)
  pub counts :
      (key : Bytes) (end : ℕ)
      → t ≤ end
      → length (recent time end (seconds window) (queue_of r key)) ≡ count key end

pub new-IsCounted : (window limit : ℕ) → IsCounted window limit 0 (λ key end. 0) (new window limit)
unfolding new find recent
new-IsCounted window limit = record {
  window_kept = refl;
  limit_kept = refl;
  rising = λ key. tt;
  past = λ key. tt;
  counts = λ key end h. refl;
}

module _ (window limit t : ℕ) (count : Bytes → ℕ → ℕ) (r : RateLimiter)
    (i : IsCounted window limit t count r) (c : Call) (later : t ≤ c.now) where
  -- A queue without what is too old at the time of the call.
  cut : Bytes → List RequestRecord
  cut key = evict_expired r (queue_of r key) c.now

  cut-recent : (key : Bytes) → cut key ≡ recent time c.now (seconds window) (queue_of r key)
  unfolding evict_expired cut
  cut-recent key =
      evict-eq-recent time c.now (seconds r.window_seconds) (queue_of r key) (i.rising key)
      ∙ ap (λ w. recent time c.now (seconds w) (queue_of r key)) i.window_kept

  pub answer : passes r c ≡ ltb (count c.client c.now) limit
  unfolding cut
  answer =
      passes_room r c c.client (str_eq_refl c.client)
      ∙ ap (λ q. ltb (length q) r.max_requests) (cut-recent c.client)
      ∙ ap (λ n. ltb n r.max_requests) (i.counts c.client c.now later)
      ∙ ap (λ l. ltb (count c.client c.now) l) i.limit_kept

  own_record : RequestRecord
  own_record = verdict_record r (passes r c) c.now c.wall

  -- Every queue after the call.
  queue_after :
      (key : Bytes)
      → queue_of (after r c) key
        ≡ (if str_eq c.client key then cut key ++ own_record ∷ [] else queue_of r key)
  unfolding cut own_record
  queue_after key = elim (Bool-cases (str_eq c.client key)) [
    | inl same ↦ rw (after_same r c key same, same) refl
    | inr other ↦ rw (after_other r c key other, other) refl
  ]

  own_time : time own_record ≡ c.now
  unfolding own_record
  own_time = verdict_time r (passes r c) c.now c.wall

  cut-Until : (key : Bytes) → Until time c.now (cut key)
  unfolding cut evict_expired
  cut-Until key =
      evict-Until time c.now (seconds r.window_seconds) c.now (queue_of r key)
        (Until-mono time t c.now (queue_of r key) later (i.past key))

  cut-IsRising : (key : Bytes) → IsRising time (cut key)
  unfolding cut evict_expired
  cut-IsRising key =
      evict-IsRising time c.now (seconds r.window_seconds) (queue_of r key) (i.rising key)

  -- The same predicate of both queues of `queue_after`.
  by_queue :
      (Good : List RequestRecord → Type 0) (key : Bytes)
      → Good (cut key ++ own_record ∷ [])
      → Good (queue_of r key)
      → Good (queue_of (after r c) key)
  by_queue Good key mine theirs =
      subst Good (sym (queue_after key)) (if_intro Good (str_eq c.client key) _ _ mine theirs)

  counts_after :
      (key : Bytes) (end : ℕ)
      → c.now ≤ end
      → length (recent time end (seconds window) (queue_of (after r c) key))
        ≡ count key end + (if str_eq c.client key && leb end (c.now + seconds window) then 1 else 0)
  counts_after key end h = elim (Bool-cases (str_eq c.client key)) [
    | inl same ↦
        let before : length (recent time end (seconds window) (cut key)) ≡ count key end =
          ap (λ q. length (recent time end (seconds window) q)) (cut-recent key)
          ∙ ap length (recent-recent c.now end (seconds window) (queue_of r key) h)
          ∙ i.counts key end (omega arith) in
        rw (queue_after key, same)
          (length-recent-append end (seconds window) (cut key) own_record
            ∙ rw (own_time, before) refl)
    | inr other ↦ rw (queue_after key, other) (i.counts key end (omega arith) ∙ omega arith)
  ]

  pub after-IsCounted :
      IsCounted window limit c.now
        (λ key end.
          count key end
          + (if str_eq c.client key && leb end (c.now + seconds window) then 1 else 0))
        (after r c)
  after-IsCounted = record {
    window_kept = (allow_request_limits r c.client c.now c.wall).1 ∙ i.window_kept;
    limit_kept = (allow_request_limits r c.client c.now c.wall).0 ∙ i.limit_kept;
    rising = λ key.
        by_queue (IsRising time) key
          (append-IsRising time (cut key) own_record
            (subst (λ n. Until time n (cut key)) (sym own_time) (cut-Until key)) (cut-IsRising key))
          (i.rising key);
    past = λ key.
        by_queue (Until time c.now) key
          (append-Until c.now (cut key) own_record (cut-Until key) (omega (arith, own_time)))
          (Until-mono time t c.now (queue_of r key) later (i.past key));
    counts = counts_after;
  }
