-- ===== src/RateLimiter.antt =====
-- app/firewall/rate_limiter.py. A time or a duration is a whole number of clock ticks, and the
-- clock's reading is an argument. The comparison `t <= now - window` is written `t + window <= now`,
-- since a difference of ticks may be negative. The lock makes each call one step.
mod Deque
pub mod Refinement
pub mod Bound
pub mod Retry
mod Tests
use agentic_firewall.Base.{
  ℕ, ◌+◌, ◌-◌, String, Bool, true, false, ◌||◌, Option, none, some, List, [], ◌∷◌, ◌++◌, ltb, leb,
  length, last?, if◌then◌else◌, not,
}
use agentic_firewall.Dict.{Dict, lookup, insert, keep_entries}

pub record RateLimitResult : Type 0 where
  pub allowed : Bool
  pub retry_after : ℕ

pub record SlidingWindowRateLimiter : Type 0 where
  pub max_requests : ℕ
  pub window_seconds : ℕ
  pub hits : Dict (List ℕ)

abbrev pub sweep_threshold : ℕ
sweep_threshold = 10000

-- `none` is the `ValueError`.
unfoldable pub init : ℕ → ℕ → Option SlidingWindowRateLimiter
init max_requests window_seconds =
    if ltb max_requests 1 || leb window_seconds 0
    then none
    else some (record { max_requests = max_requests; window_seconds = window_seconds; hits = [] })

-- t <= cutoff
abbrev pub expired : ℕ → ℕ → ℕ → Bool
expired window now t = leb (t + window) now

-- while hits and hits[0] <= cutoff: hits.popleft()
unfoldable pub drop_expired : ℕ → ℕ → List ℕ → List ℕ
drop_expired window now [] = []
drop_expired window now (t ∷ ts) =
    let rest = drop_expired window now ts in if expired window now t then rest else t ∷ ts

-- not d or d[-1] <= cutoff
abbrev pub is_stale : ℕ → ℕ → List ℕ → Bool
is_stale window now d = elim (last? d) [ none ↦ true | some t ↦ expired window now t ]

unfoldable pub sweep : SlidingWindowRateLimiter → ℕ → SlidingWindowRateLimiter
sweep l now = record l { hits = keep_entries (λ d. not (is_stale l.window_seconds now d)) l.hits }

-- self._hits.setdefault(key, deque())
unfoldable pub hits_of : String → Dict (List ℕ) → List ℕ
hits_of key hits = elim (lookup key hits) [ none ↦ [] | some d ↦ d ]

-- max(hits[0] + window - now, 0). The deque is not empty here, since `max_requests` is at least 1.
abbrev pub time_left : ℕ → ℕ → List ℕ → ℕ
time_left window now [] = 0
time_left window now (t ∷ ts) = t + window - now

-- The part of `check` behind the sweep.
unfoldable pub admit :
    SlidingWindowRateLimiter → String → ℕ → SlidingWindowRateLimiter × RateLimitResult
unfolding hits_of
admit l key now =
    let hits = drop_expired l.window_seconds now (hits_of key l.hits) in
    if leb l.max_requests (length hits)
    then (
      record l { hits = insert key hits l.hits },
      record { allowed = false; retry_after = time_left l.window_seconds now hits },
    )
    else (
      record l { hits = insert key (hits ++ now ∷ []) l.hits },
      record { allowed = true; retry_after = 0 },
    )

unfoldable pub swept : SlidingWindowRateLimiter → ℕ → SlidingWindowRateLimiter
unfolding sweep
swept l now = if ltb sweep_threshold (length l.hits) then sweep l now else l

unfoldable pub check :
    SlidingWindowRateLimiter → String → ℕ → SlidingWindowRateLimiter × RateLimitResult
unfolding swept admit
check l key now = admit (swept l now) key now
