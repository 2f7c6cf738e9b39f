-- ===== src/RateLimiter/Verdicts.antt =====
-- The rate limiter as its callers see it: what it answers is a function of the calls so far and needs no
-- queues.
use session_affinity_engine.Base.{
  All, ℕ, ◌+◌, ◌≤◌, ◌<◌, ◌≡◌, refl, ◌∙◌, true, List, [], ◌∷◌, arith, ltb, Bool-cases, inl, inr,
}
use session_affinity_engine.Text.{Bytes, str_eq, str_eq→eq}
use session_affinity_engine.Window.{seconds, IsRising, From, Until, Until-mono}
use session_affinity_engine.RateLimiter.{RateLimiter, new, queue_of}
use session_affinity_engine.RateLimiter.Decision.{time}
use session_affinity_engine.RateLimiter.Guarantee.{Call, after, passes}
use session_affinity_engine.RateLimiter.Stateless.{
  called, after_all, IsCounted, new-IsCounted, answer, after-IsCounted,
}

IsCounted-cong :
    {window limit t u : ℕ} {count other : Bytes → ℕ → ℕ} {r : RateLimiter}
    → t ≤ u
    → ((key : Bytes) (end : ℕ) → count key end ≡ other key end)
    → IsCounted window limit t count r
    → IsCounted window limit u other r
IsCounted-cong {t = t} {u = u} {r = r} h same i = record {
  window_kept = i.window_kept;
  limit_kept = i.limit_kept;
  rising = i.rising;
  past = λ key. Until-mono time t u (queue_of r key) h (i.past key);
  counts = λ key end late. i.counts key end (omega arith) ∙ same key end;
}

run-IsCounted :
    (window limit t u : ℕ) (count : Bytes → ℕ → ℕ) (r : RateLimiter) (cs : List Call)
    → IsCounted window limit t count r
    → IsRising (λ c. c.now) cs
    → From (λ c. c.now) t cs
    → Until (λ c. c.now) u cs
    → t ≤ u
    → IsCounted window limit u
        (λ key end. count key end + called key (seconds window) end cs)
        (after_all r cs)
unfolding after_all called
run-IsCounted window limit t u count r [] i rising from until h =
    IsCounted-cong h (λ key end. omega arith) i
run-IsCounted window limit t u count r (c ∷ cs) i rising from until h =
    IsCounted-cong (omega arith) (λ key end. omega arith)
      (run-IsCounted window limit c.now u _ (after r c) cs
        (after-IsCounted window limit t count r i c from.0) rising.1 rising.0 until.1 until.0)

From-zero : (cs : List Call) → From (λ c. c.now) 0 cs
From-zero [] = tt
From-zero (c ∷ cs) = (omega arith, From-zero cs)

-- The verdict on a call is a function of the calls before it, whatever they were answered: the call is
-- allowed exactly when fewer than the limit of the client's earlier calls are no older than the window. So
-- it is after any history of calls of any clients on a new limiter, if the clock does not run backwards.
pub passes-history :
    (window limit : ℕ) (cs : List Call) (c : Call)
    → IsRising (λ x. x.now) cs
    → Until (λ x. x.now) c.now cs
    → passes (after_all (new window limit) cs) c
      ≡ ltb (called c.client (seconds window) c.now cs) limit
passes-history window limit cs c rising until =
    answer window limit c.now (λ key end. called key (seconds window) end cs)
      (after_all (new window limit) cs)
      (IsCounted-cong (omega arith) (λ key end. omega arith)
        (run-IsCounted window limit 0 c.now (λ key end. 0) (new window limit) cs
          (new-IsCounted window limit) rising (From-zero cs) until (omega arith)))
      c (omega arith)

none_called :
    (key : Bytes) (window end : ℕ) (cs : List Call)
    → All (λ x. (x.client ≡ key) → x.now + window < end) cs
    → called key window end cs ≡ 0
unfolding called
none_called key window end [] quiet = refl
none_called key window end (c ∷ cs) quiet = elim (Bool-cases (str_eq c.client key)) [
  | inl same ↦
      ground (arith, quiet.0 (str_eq→eq c.client key same), none_called key window end cs quiet.1)
  | inr other ↦ ground (arith, none_called key window end cs quiet.1)
]

-- A client is not shut out for good. After any history of calls, rejected ones included, a call of a client
-- all of whose earlier calls are older than the window is allowed, if the limit is not 0.
pub quiet_client :
    (window limit : ℕ) (cs : List Call) (c : Call)
    → IsRising (λ x. x.now) cs
    → Until (λ x. x.now) c.now cs
    → 0 < limit
    → All (λ x. (x.client ≡ c.client) → x.now + seconds window < c.now) cs
    → passes (after_all (new window limit) cs) c ≡ true
quiet_client window limit cs c rising until some_limit quiet = ground (
  arith,
  passes-history window limit cs c rising until,
  none_called c.client (seconds window) c.now cs quiet,
)
