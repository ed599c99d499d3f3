-- ===== src/CircuitBreaker/Cycle.antt =====
-- One breaker and its state machine, for calls that come one behind the other.
use agentic_firewall.Base.{
  ℕ, suc, ◌+◌, ◌≤◌, ◌<◌, ◌≡◌, ◌≢◌, ◌↔◌, refl, ap, ◌∙◌, ◌++◌, ◌⊎◌, inl, inr, true, false, List, [],
  ◌∷◌, arith, length, if◌then◌else◌,
}
use agentic_firewall.CircuitBreaker.{
  closed, open_, half_open, CircuitBreaker, fresh, allow, retry_after, trip, record_success,
  record_failure,
}

-- Failures stay below the threshold, and a probe is in flight exactly in the half-open state.
pub record IsValid (b : CircuitBreaker) : Type 0 where
  pub below : b.failures < b.threshold
  pub probing : (b.probe_in_flight ≡ true) ↔ (b.state ≡ half_open)

pub fresh-IsValid : (threshold cooldown : ℕ) → 1 ≤ threshold → IsValid (fresh threshold cooldown)
fresh-IsValid threshold cooldown h = ground arith

pub allow-IsValid : (b : CircuitBreaker) (now : ℕ) → IsValid b → IsValid (allow b now).0
unfolding allow
allow-IsValid b now v = ground arith

pub record_success-IsValid : (b : CircuitBreaker) → IsValid b → IsValid (record_success b)
unfolding record_success
record_success-IsValid b v = ground arith

pub record_failure-IsValid :
    (b : CircuitBreaker) (now : ℕ) → IsValid b → IsValid (record_failure b now)
unfolding record_failure
record_failure-IsValid b now v = ground arith

-- The answers of a series of `allow` calls with no result recorded between them: how many pass.
unfoldable pub passes : CircuitBreaker → List ℕ → ℕ
passes b [] = 0
passes b (t ∷ ts) = let rest = passes (allow b t).0 ts in if (allow b t).1 then suc rest else rest

probing_passes :
    (b : CircuitBreaker) (ts : List ℕ)
    → b.state ≡ half_open
    → b.probe_in_flight ≡ true
    → passes b ts ≡ 0
unfolding passes allow
probing_passes b [] s p = refl
probing_passes b (t ∷ ts) s p = ground (arith, probing_passes b ts s p)

-- A breaker that is not closed refuses and stays as it is, or starts a probe.
allow_cases :
    (b : CircuitBreaker) (now : ℕ)
    → b.state ≢ closed
    → (((allow b now).1 ≡ false) × ((allow b now).0 ≡ b))
      ⊎ (((allow b now).0.state ≡ half_open) × ((allow b now).0.probe_in_flight ≡ true))
unfolding allow
allow_cases b now s = ground arith

-- A breaker that is not closed lets at most one call through until a result is recorded.
pub passes-le-one : (b : CircuitBreaker) (ts : List ℕ) → b.state ≢ closed → passes b ts ≤ 1
unfolding passes
passes-le-one b [] s = omega arith
passes-le-one b (t ∷ ts) s = elim (allow_cases b t s) [
  | inl (e, same) ↦ rw (e, same) (passes-le-one b ts s)
  | inr (h, p) ↦ ground (arith, probing_passes (allow b t).0 ts h p)
]

-- A series of failures, each at its time.
unfoldable pub fail_all : CircuitBreaker → List ℕ → CircuitBreaker
fail_all b [] = b
fail_all b (t ∷ ts) = fail_all (record_failure b t) ts

fail_below :
    (b : CircuitBreaker) (now : ℕ)
    → b.state ≡ closed
    → suc b.failures < b.threshold
    → record_failure b now ≡ record b { failures = suc b.failures }
unfolding record_failure
fail_below b now s h = ground arith

fail_at :
    (b : CircuitBreaker) (now : ℕ)
    → b.state ≡ closed
    → suc b.failures ≡ b.threshold
    → record_failure b now ≡ trip b now
unfolding record_failure trip
fail_at b now s h = ground arith

fail_all_below :
    (b : CircuitBreaker) (ts : List ℕ)
    → b.state ≡ closed
    → b.failures + length ts < b.threshold
    → fail_all b ts ≡ record b { failures = b.failures + length ts }
unfolding fail_all
fail_all_below b [] s h = ground arith
fail_all_below b (t ∷ ts) s h = rw (fail_below b t s (omega arith)) (
    fail_all_below (record b { failures = suc b.failures }) ts s (omega arith)
    ∙ ap (λ (n : ℕ). record b { failures = n }) (omega arith))

fail_all-append :
    (b : CircuitBreaker) (ts : List ℕ) (t : ℕ)
    → fail_all b (ts ++ t ∷ []) ≡ record_failure (fail_all b ts) t
unfolding fail_all
fail_all-append b [] t = refl
fail_all-append b (u ∷ ts) t = fail_all-append (record_failure b u) ts t

trip_state :
    (b : CircuitBreaker) (t : ℕ)
    → ((trip b t).state ≡ open_) × ((trip b t).opened_at ≡ t) × ((trip b t).probe_in_flight ≡ false)
unfolding trip
trip_state b t = (refl, refl, refl)

-- Behind a success, `threshold` failures in a row: after all but the last the breaker is closed, and
-- after the last it is open, from the time of that failure on and with no probe in flight.
pub trips_at_threshold :
    (b : CircuitBreaker) (ts : List ℕ) (t : ℕ)
    → suc (length ts) ≡ b.threshold
    → let opened = fail_all (record_success b) (ts ++ t ∷ []) in
      ((fail_all (record_success b) ts).state ≡ closed)
      × (opened.state ≡ open_)
      × (opened.opened_at ≡ t)
      × (opened.probe_in_flight ≡ false)
unfolding record_success
trips_at_threshold b ts t h =
    let calm : CircuitBreaker = record_success b in
    let e : fail_all calm ts ≡ record calm { failures = 0 + length ts } =
      fail_all_below calm ts refl (omega arith) in
    let last : fail_all calm (ts ++ t ∷ []) ≡ trip (record calm { failures = 0 + length ts }) t =
      rw (fail_all-append calm ts t, e)
        (fail_at (record calm { failures = 0 + length ts }) t refl (omega arith)) in
    let (opens, at, unprobed) = trip_state (record calm { failures = 0 + length ts }) t in
    (rw e, rw last opens, rw last at, rw last unprobed)

-- An open breaker refuses until its cooldown has passed and then lets a call through as a probe;
-- `retry_after` is the time that is left.
pub open_until :
    (b : CircuitBreaker) (now : ℕ)
    → b.state ≡ open_
    → ((now + retry_after b now ≡ b.opened_at + b.cooldown)
        × ((allow b now) ≡ (b, false))
        × (now < b.opened_at + b.cooldown))
      ⊎ ((retry_after b now ≡ 0)
          × ((allow b now).1 ≡ true)
          × ((allow b now).0.state ≡ half_open)
          × (b.opened_at + b.cooldown ≤ now))
unfolding allow retry_after
open_until b now s = ground arith

-- The result of a probe: a success closes the breaker, a failure opens it anew at that time.
pub probe_result :
    (b : CircuitBreaker) (now later : ℕ)
    → b.state ≡ open_
    → b.opened_at + b.cooldown ≤ now
    → let b' = (allow b now).0 in
      ((record_success b').state ≡ closed)
      × ((record_failure b' later).state ≡ open_)
      × ((record_failure b' later).opened_at ≡ later)
unfolding allow record_success record_failure trip
probe_result b now later s h = ground arith
