-- ===== src/RateLimiter/Bound.antt =====
-- A series of calls of `check` of app/firewall/rate_limiter.py, and how many requests of one key it
-- lets through in a window of time.
use agentic_firewall.Base.{
  ℕ, ◌+◌, ◌≤◌, ◌<◌, ◌≡◌, ◌&&◌, inl, inr, String, not, List, [], ◌∷◌, ◌++◌, arith, leb, ltb→lt, ◌==◌,
  eq_iff, ◌∙◌, Bool, length, length-append, keep, keep-append, some, Bool-cases,
}
use agentic_firewall.RateLimiter.{SlidingWindowRateLimiter, expired, init, check}
use agentic_firewall.RateLimiter.Deque.{window, length-window_mono}
use agentic_firewall.RateLimiter.Refinement.{
  Log, times, times-append, has_room, granted, Refines, check-Refines, init-Refines,
}

-- How many of the times lie after `at - w` and no later than `at`.
abbrev pub count_in : ℕ → ℕ → List ℕ → ℕ
count_in w at ts = length (keep (λ t. not (expired w at t) && leb t at) ts)

-- A series of calls, and the log of those that were let through.
unfoldable pub run :
    SlidingWindowRateLimiter → Log → List (String × ℕ) → SlidingWindowRateLimiter × Log
run l log [] = (l, log)
run l log ((key, now) ∷ calls) =
    let (l', r) = check l key now in run l' (granted r.allowed log key now) calls

-- The clock does not go back.
abbrev pub InOrder : ℕ → List (String × ℕ) → Type 0
InOrder last [] = Unit
InOrder last ((key, now) ∷ calls) = (last ≤ now) × InOrder now calls

count_in-le-window : (w at : ℕ) (ts : List ℕ) → count_in w at ts ≤ length (window w at ts)
count_in-le-window w at [] = omega arith
count_in-le-window w at (t ∷ ts) = ground (arith, count_in-le-window w at ts)

count_in-append :
    (w at t : ℕ) (ts : List ℕ)
    → count_in w at (ts ++ t ∷ []) ≡ count_in w at ts + count_in w at (t ∷ [])
count_in-append w at t ts = rw (keep-append _ ts (t ∷ [])) (length-append _ _)

-- One more time, while the window that it closes has room.
count_in-room :
    (w at now m : ℕ) (ts : List ℕ)
    → length (window w now ts) < m
    → count_in w at ts ≤ m
    → count_in w at (ts ++ now ∷ []) ≤ m
count_in-room w at now m ts room old =
    rw (count_in-append w at now ts) (elim (Bool-cases (leb now at)) [
      | inl e ↦ ground (arith, count_in-le-window w at ts, length-window_mono w now at ts)
      | inr e ↦ ground arith
    ])

abbrev pub IsBounded : ℕ → ℕ → Log → Type 0
IsBounded m w log = (key : String) (at : ℕ) → count_in w at (times key log) ≤ m

append-IsBounded :
    (m w : ℕ) (log : Log) (key : String) (now : ℕ)
    → length (window w now (times key log)) < m
    → IsBounded m w log
    → IsBounded m w (log ++ (key, now) ∷ [])
append-IsBounded m w log key now room b k at =
    rw (times-append k key now log) (elim (Bool-cases (key == k)) [
      | inl e ↦
          rw e (count_in-room w at now m (times k log) (rw (← (eq_iff key k).0 e) room) (b k at))
      | inr e ↦ rw e (b k at)
    ])

pub granted-IsBounded :
    (m w : ℕ) (log : Log) (key : String) (now : ℕ)
    → IsBounded m w log
    → IsBounded m w (granted (has_room m w log key now) log key now)
granted-IsBounded m w log key now b = elim (Bool-cases (has_room m w log key now)) [
  | inl e ↦ rw e (append-IsBounded m w log key now (ltb→lt _ _ e) b)
  | inr e ↦ rw e b
]

-- A call leaves the limits alone.
abbrev pub limits : SlidingWindowRateLimiter → ℕ × ℕ
limits l = (l.max_requests, l.window_seconds)

pub limits-check :
    (l : SlidingWindowRateLimiter) (key : String) (now : ℕ) → limits (check l key now).0 ≡ limits l
unfolding check
limits-check l key now = ground arith

run-IsBounded :
    (m w : ℕ) (l : SlidingWindowRateLimiter) (log : Log) (last : ℕ) (calls : List (String × ℕ))
    → limits l ≡ (m, w)
    → Refines l log last
    → InOrder last calls
    → IsBounded m w log
    → IsBounded m w (run l log calls).1
unfolding run
run-IsBounded m w l log last [] e r o b = b
run-IsBounded m w l log last ((key, now) ∷ calls) e r o b =
    let step = check-Refines l log last now key o.0 r in
    let room : Bool = has_room m w log key now in
    let same : (check l key now).1.allowed ≡ room = ground (arith, step.0) in
    run-IsBounded m w (check l key now).0 (granted (check l key now).1.allowed log key now) now
      calls (limits-check l key now ∙ e) (rw step.0 step.1) o.1
      (rw same (granted-IsBounded m w log key now b))

init-limits : (m w : ℕ) (l : SlidingWindowRateLimiter) → init m w ≡ some l → limits l ≡ (m, w)
unfolding init
init-limits m w l e = ground arith

-- Whatever the calls made of a fresh limiter with a clock that does not go back: for each key and
-- each time `at`, at most `m` requests of the key were let through after `at - w` and up to `at`.
pub count_in-run-le :
    (m w : ℕ) (l : SlidingWindowRateLimiter) (calls : List (String × ℕ)) (key : String) (at : ℕ)
    → init m w ≡ some l
    → InOrder 0 calls
    → count_in w at (times key (run l [] calls).1) ≤ m
count_in-run-le m w l calls key at e o =
    run-IsBounded m w l [] 0 calls (init-limits m w l e) (init-Refines m w l e) o
      (λ k t. omega arith) key at
