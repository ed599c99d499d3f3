-- ===== src/RateLimiter/Tests.antt =====
-- Runs of the limiter, and its theorems at concrete calls.
use agentic_firewall.Base.{ℕ, ◌≤◌, ◌≡◌, refl, String, true, false, [], ◌∷◌, List, some, arith}
use agentic_firewall.Dict.{lookup, insert}
use agentic_firewall.RateLimiter.{SlidingWindowRateLimiter, init, check, drop_expired}
use agentic_firewall.RateLimiter.Refinement.{Refines, check-Refines, init-Refines, times}
use agentic_firewall.RateLimiter.Bound.{run, count_in, count_in-run-le}
use agentic_firewall.RateLimiter.Retry.{
  IsWithin, check-IsWithin, Promised, retry_after_lem, init-IsWithin,
}

-- Two requests in ten ticks.
abbrev two_in_ten : SlidingWindowRateLimiter
two_in_ten = record { max_requests = 2; window_seconds = 10; hits = [] }

abbrev burst : List (String × ℕ)
burst = ("a", 1) ∷ ("a", 4) ∷ ("b", 5) ∷ ("a", 6) ∷ ("a", 11) ∷ []

-- The third request of "a" is refused; the fourth comes when the first has expired.
run-burst : (run two_in_ten [] burst).1 ≡ ("a", 1) ∷ ("a", 4) ∷ ("b", 5) ∷ ("a", 11) ∷ []
unfolding run check drop_expired lookup insert
run-burst = refl

init-two_in_ten : init 2 10 ≡ some two_in_ten
unfolding init
init-two_in_ten = refl

count_in-run-le_example : count_in 10 11 (times "a" (run two_in_ten [] burst).1) ≤ 2
count_in-run-le_example = count_in-run-le 2 10 two_in_ten burst "a" 11 init-two_in_ten (omega arith)

check-Refines_example :
    ((check two_in_ten "a" 3).1.allowed ≡ true)
    × Refines (check two_in_ten "a" 3).0 (("a", 3) ∷ []) 3
check-Refines_example =
    check-Refines two_in_ten [] 0 3 "a" (omega arith) (init-Refines 2 10 two_in_ten init-two_in_ten)

-- One request in ten ticks; the second, at tick 4, waits until tick 13.
abbrev one_in_ten : SlidingWindowRateLimiter
one_in_ten = record { max_requests = 1; window_seconds = 10; hits = [] }

abbrev taken : SlidingWindowRateLimiter
taken = record { max_requests = 1; window_seconds = 10; hits = ("a", 3 ∷ []) ∷ [] }

init-one_in_ten : init 1 10 ≡ some one_in_ten
unfolding init
init-one_in_ten = refl

taken_lem : (check one_in_ten "a" 3).0 ≡ taken
unfolding check drop_expired lookup insert
taken_lem = refl

taken-Refines : Refines (check one_in_ten "a" 3).0 (("a", 3) ∷ []) 3
taken-Refines =
    (check-Refines one_in_ten [] 0 3 "a" (omega arith)
      (init-Refines 1 10 one_in_ten init-one_in_ten)).1

taken_denies : (check (check one_in_ten "a" 3).0 "a" 4).1.allowed ≡ false
unfolding check drop_expired lookup insert
taken_denies = refl

taken-IsWithin : IsWithin (check one_in_ten "a" 3).0
taken-IsWithin = check-IsWithin one_in_ten "a" 3 (init-IsWithin 1 10 one_in_ten init-one_in_ten)

taken_limit : 1 ≤ (check one_in_ten "a" 3).0.max_requests
unfolding check drop_expired lookup insert
taken_limit = omega arith

retry_after_lem_example :
    Promised
      (check (check one_in_ten "a" 3).0 "a" 4).0
      "a"
      4
      (check (check one_in_ten "a" 3).0 "a" 4).1.retry_after
retry_after_lem_example =
    retry_after_lem (check one_in_ten "a" 3).0 (("a", 3) ∷ []) 3 4 "a" taken_limit taken-IsWithin
      taken-Refines (omega arith) taken_denies

retry_after_run : (check taken "a" 4).1.retry_after ≡ 9
unfolding check drop_expired lookup insert
retry_after_run = refl
