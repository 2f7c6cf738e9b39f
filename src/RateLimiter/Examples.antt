-- ===== src/RateLimiter/Examples.antt =====
-- Tests of src/rate_limiter.cpp, and the theorems about it at concrete histories.
use session_affinity_engine.Base.{◌+◌, ◌≤◌, ◌≡◌, refl, true, false, List, [], ◌∷◌, arith, ltb}
use session_affinity_engine.Text.{Bytes, codes, str_eq}
use session_affinity_engine.Text.Decimal.{to_string}
use session_affinity_engine.Dict.{find, assign}
use session_affinity_engine.Window.{seconds, evict, recent}
use session_affinity_engine.RateLimiter.{
  RateLimiter, new, evict_expired, allow_request, get_history, current_count, reset,
}
use session_affinity_engine.RateLimiter.Guarantee.{
  Call, passes, allowed_in_window, window_guarantee,
}
use session_affinity_engine.RateLimiter.Stateless.{called, after_all}
use session_affinity_engine.RateLimiter.Verdicts.{passes-history, quiet_client}
use session_affinity_engine.RateLimiter.Starvation.{steady_verdict, steady_client}

program : Unit {0}
unfolding str_eq to_string find assign evict recent new evict_expired allow_request get_history
    current_count reset
program = tt

abbrev alice : Bytes
alice = codes "a"

abbrev once : RateLimiter
once = (allow_request (new 60 1) alice 5 (codes "12:00")).0

again : (allow_request once alice 6 (codes "12:00")).1 ≡ false
unfolding program
again = refl

-- The first record has left the window here.
much_later : (allow_request once alice (seconds 60 + 6) (codes "12:01")).1 ≡ true
unfolding program
much_later = refl

after_reset : current_count (reset once) alice ≡ 0
unfolding program
after_reset = refl

abbrev calls : List Call
calls =
    record { client = alice; now = 5; wall = [] }
    ∷ record { client = codes "b"; now = 6; wall = [] }
    ∷ record { client = alice; now = 7; wall = [] }
    ∷ []

one_allowed : allowed_in_window alice 9 (new 60 1) calls ≡ 1
unfolding program allowed_in_window
one_allowed = refl

window_guarantee_example : allowed_in_window alice 9 (new 60 1) calls ≤ 1
window_guarantee_example = window_guarantee 60 1 alice 9 calls (omega arith)

steady_client_example : steady_verdict 60 3 alice [] 0 (seconds 20) 5 ≡ false
steady_client_example = steady_client 60 3 alice [] 0 (seconds 20) 5 (omega arith)

abbrev third : Call
third = record { client = alice; now = 9; wall = [] }

-- The second call was rejected, and counts.
two_called : called alice (seconds 60) 9 calls ≡ 2
unfolding program called
two_called = refl

passes-history_example :
    passes (after_all (new 60 3) calls) third ≡ ltb (called alice (seconds 60) 9 calls) 3
unfolding program
passes-history_example =
    passes-history 60 3 calls third
      ((omega arith, (omega arith, tt)), ((omega arith, tt), (tt, tt)))
      (omega arith, (omega arith, (omega arith, tt)))

abbrev next_minute : Call
next_minute = record { client = alice; now = seconds 60 + 8; wall = [] }

quiet_client_example : passes (after_all (new 60 1) calls) next_minute ≡ true
quiet_client_example =
    quiet_client 60 1 calls next_minute
      ((omega arith, (omega arith, tt)), ((omega arith, tt), (tt, tt)))
      (omega arith, (omega arith, (omega arith, tt))) (omega arith)
      ((λ e. omega arith), ((λ e. omega arith), ((λ e. omega arith), tt)))
