-- ===== src/CircuitBreaker/Probe.antt =====
-- A breaker with calls in flight, in any interleaving. The gateway records a result for each call
-- that `allow` lets through, so a record ends one call in flight.
use agentic_firewall.Base.{ℕ, suc, ◌+◌, ◌≤◌, ◌<◌, ◌≡◌, true, arith, if◌then◌else◌}
use agentic_firewall.CircuitBreaker.{
  closed, open_, half_open, CircuitBreaker, fresh, allow, record_success, record_failure,
}
use agentic_firewall.CircuitBreaker.Cycle.{
  IsValid, fresh-IsValid, allow-IsValid, record_success-IsValid, record_failure-IsValid,
}

pub record System : Type 0 where
  pub breaker : CircuitBreaker
  pub in_flight : ℕ

abbrev pub started : System → ℕ → System
started s now = record {
  breaker = (allow s.breaker now).0;
  in_flight = if (allow s.breaker now).1 then suc s.in_flight else s.in_flight;
}

pub data Step : System → System → Type 0 where
  starts : (s : System) (now : ℕ) → Step s (started s now)
  succeeds :
      (s : System) (n : ℕ)
      → s.in_flight ≡ suc n
      → Step s (record { breaker = record_success s.breaker; in_flight = n })
  fails :
      (s : System) (n now : ℕ)
      → s.in_flight ≡ suc n
      → Step s (record { breaker = record_failure s.breaker now; in_flight = n })

pub data Reach (s : System) : System → Type 0 where
  here : Reach s s
  next : {t u : System} → Reach s t → Step t u → Reach s u

-- A half-open breaker has a call in flight, whose result will move it on.
pub record IsLive (s : System) : Type 0 where
  pub valid : IsValid s.breaker
  pub probe : s.breaker.state ≡ half_open → 0 < s.in_flight

starts-probe :
    (s : System) (now : ℕ)
    → IsLive s
    → (started s now).breaker.state ≡ half_open
    → 0 < (started s now).in_flight
unfolding allow
starts-probe s now l = ground arith

moved_on :
    (b : CircuitBreaker) (now : ℕ)
    → ((record_success b).state ≡ half_open → ⊥) × ((record_failure b now).state ≡ half_open → ⊥)
unfolding record_success record_failure
moved_on b now = ground arith

Step-IsLive : {s t : System} → Step s t → IsLive s → IsLive t
Step-IsLive (starts s now) l = record {
  valid = allow-IsValid s.breaker now l.valid;
  probe = starts-probe s now l;
}
Step-IsLive (succeeds s n e) l = record {
  valid = record_success-IsValid s.breaker l.valid;
  probe = λ h. absurd ((moved_on s.breaker 0).0 h);
}
Step-IsLive (fails s n now e) l = record {
  valid = record_failure-IsValid s.breaker now l.valid;
  probe = λ h. absurd ((moved_on s.breaker now).1 h);
}

pub Reach-IsLive : {s t : System} → Reach s t → IsLive s → IsLive t
Reach-IsLive here l = l
Reach-IsLive (next r st) l = Step-IsLive st (Reach-IsLive r l)

abbrev pub start : ℕ → ℕ → System
start threshold cooldown = record { breaker = fresh threshold cooldown; in_flight = 0 }

start-IsLive : (threshold cooldown : ℕ) → 1 ≤ threshold → IsLive (start threshold cooldown)
start-IsLive threshold cooldown h = record {
  valid = fresh-IsValid threshold cooldown h;
  probe = λ e. cc;
}

idle_allows :
    (s : System) (now : ℕ)
    → IsLive s
    → s.in_flight ≡ 0
    → s.breaker.opened_at + s.breaker.cooldown ≤ now
    → (allow s.breaker now).1 ≡ true
unfolding allow
idle_allows s now l idle h = ground arith

-- From a new breaker, through any interleaving of calls and results: once no call is in flight, a
-- call that comes when the cooldown has passed since the last trip is let through.
pub idle_recovers :
    (threshold cooldown now : ℕ) {s : System}
    → 1 ≤ threshold
    → Reach (start threshold cooldown) s
    → s.in_flight ≡ 0
    → s.breaker.opened_at + s.breaker.cooldown ≤ now
    → (allow s.breaker now).1 ≡ true
idle_recovers threshold cooldown now {s} h r idle late =
    idle_allows s now (Reach-IsLive r (start-IsLive threshold cooldown h)) idle late

-- A breaker that a failure has just tripped: a success that is recorded then, of a call from before
-- the trip, closes it, so that the next call passes whatever is left of the cooldown.
pub stale_success :
    (b : CircuitBreaker) (failed now : ℕ)
    → suc b.failures ≡ b.threshold
    → b.state ≡ closed
    → let opened = record_failure b failed in
      (opened.state ≡ open_)
      × ((record_success opened).state ≡ closed)
      × ((allow (record_success opened) now).1 ≡ true)
unfolding allow record_failure record_success
stale_success b failed now h s = ground arith
