-- ===== src/RateLimiter/Retry.antt =====
-- The `retry_after` of a refusal in app/firewall/rate_limiter.py.
use agentic_firewall.Base.{
  ℕ, ◌+◌, ◌≤◌, ◌<◌, ◌≡◌, refl, ap, inl, inr, ◌⊎◌, ◌∙◌, String, true, false, not, some, List, [],
  ◌∷◌, ◌++◌, arith, ltb, leb, leb_false→lt, ◌-◌, length, length-append, Bool-cases, eq_refl,
}
use agentic_firewall.Dict.{insert, insert-Distinct, keep_entries-Distinct, Distinct, lookup}
use agentic_firewall.RateLimiter.{
  SlidingWindowRateLimiter, expired, drop_expired, is_stale, time_left, sweep, swept, hits_of,
  admit, check, init, sweep_threshold,
}
use agentic_firewall.RateLimiter.Deque.{Between, Between-le, Between-mono, drop_expired-Between}
use agentic_firewall.RateLimiter.Refinement.{
  Log, Refines, init-hits, hits_of-insert, hits_of-keep_entries,
}

-- No deque is longer than the limit.
pub record IsWithin (l : SlidingWindowRateLimiter) : Type 0 where
  pub within : (k : String) → length (hits_of k l.hits) ≤ l.max_requests
  pub distinct : Distinct l.hits

length-drop_expired-le : (w now : ℕ) (ts : List ℕ) → length (drop_expired w now ts) ≤ length ts
unfolding drop_expired
length-drop_expired-le w now [] = omega arith
length-drop_expired-le w now (t ∷ ts) = ground (arith, length-drop_expired-le w now ts)

-- What is left begins with a live time.
drop_expired-head :
    (w now t : ℕ) (d ts : List ℕ) → drop_expired w now d ≡ t ∷ ts → expired w now t ≡ false
unfolding drop_expired
drop_expired-head w now t [] ts e = ground arith
drop_expired-head w now t (u ∷ d) ts e = ground (arith, drop_expired-head w now t d ts)

-- The deque of a key behind a sweep is the old one, or empty.
hits_of-swept :
    (l : SlidingWindowRateLimiter) (now : ℕ) (k : String)
    → Distinct l.hits
    → (hits_of k (swept l now).hits ≡ hits_of k l.hits) ⊎ (hits_of k (swept l now).hits ≡ [])
unfolding swept sweep
hits_of-swept l now k d = elim (Bool-cases (ltb sweep_threshold (length l.hits))) [
  | inl e ↦
      rw (e, hits_of-keep_entries l.window_seconds now k l.hits d)
        (elim (Bool-cases (is_stale l.window_seconds now (hits_of k l.hits))) [
          | inl s ↦ rw s (inr refl)
          | inr s ↦ rw s (inl refl)
        ])
  | inr e ↦ rw e (inl refl)
]

abbrev limits : SlidingWindowRateLimiter → ℕ × ℕ
limits l = (l.max_requests, l.window_seconds)

limits-swept : (l : SlidingWindowRateLimiter) (now : ℕ) → limits (swept l now) ≡ limits l
unfolding swept sweep
limits-swept l now = ground arith

allowed-admit :
    (l : SlidingWindowRateLimiter) (key : String) (now : ℕ)
    → (admit l key now).1.allowed
      ≡ not (leb l.max_requests (length (drop_expired l.window_seconds now (hits_of key l.hits))))
unfolding admit
allowed-admit l key now = ground arith

-- The head of a deque expires when the window has passed.
length-drop_expired-lt :
    (w t : ℕ) (d ts : List ℕ)
    → (d ≡ t ∷ ts) ⊎ (d ≡ [])
    → length (drop_expired w (t + w) d) < length (t ∷ ts)
unfolding drop_expired
length-drop_expired-lt w t d ts (inl e) = rw e (ground (arith, length-drop_expired-le w (t + w) ts))
length-drop_expired-lt w t d ts (inr e) = rw e (omega arith)

write-IsWithin :
    (l : SlidingWindowRateLimiter) (key : String) (d : List ℕ)
    → length d ≤ l.max_requests
    → IsWithin l
    → IsWithin (record l { hits = insert key d l.hits })
write-IsWithin l key d n v = record {
  within = λ k. ground (arith, hits_of-insert key k d l.hits, v.within k);
  distinct = insert-Distinct key d l.hits v.distinct;
}

admit-IsWithin :
    (l : SlidingWindowRateLimiter) (key : String) (now : ℕ)
    → IsWithin l
    → IsWithin (admit l key now).0
unfolding admit
admit-IsWithin l key now v =
    let old : List ℕ = hits_of key l.hits in
    let d : List ℕ = drop_expired l.window_seconds now old in
    let n : length d ≤ l.max_requests =
      omega (arith, length-drop_expired-le l.window_seconds now old, v.within key) in
    elim (Bool-cases (leb l.max_requests (length d))) [
      | inl e ↦ rw e (write-IsWithin l key d n v)
      | inr e ↦ rw e (
          write-IsWithin l key (d ++ now ∷ [])
            (omega (arith, leb_false→lt _ _ e, length-append d (now ∷ []))) v)
    ]

swept-Distinct :
    (l : SlidingWindowRateLimiter) (now : ℕ) → Distinct l.hits → Distinct (swept l now).hits
unfolding swept sweep
swept-Distinct l now d = elim (Bool-cases (ltb sweep_threshold (length l.hits))) [
  | inl e ↦ rw e (keep_entries-Distinct _ l.hits d)
  | inr e ↦ rw e d
]

swept-IsWithin : (l : SlidingWindowRateLimiter) (now : ℕ) → IsWithin l → IsWithin (swept l now)
swept-IsWithin l now v = record {
  within = λ k. ground (arith, hits_of-swept l now k v.distinct, limits-swept l now, v.within k);
  distinct = swept-Distinct l now v.distinct;
}

check_lem :
    (l : SlidingWindowRateLimiter) (key : String) (now : ℕ)
    → check l key now ≡ admit (swept l now) key now
unfolding check
check_lem l key now = refl

-- No call lets a deque grow past the limit.
pub check-IsWithin :
    (l : SlidingWindowRateLimiter) (key : String) (now : ℕ)
    → IsWithin l
    → IsWithin (check l key now).0
check-IsWithin l key now v =
    rw (check_lem l key now) (admit-IsWithin (swept l now) key now (swept-IsWithin l now v))

-- Room at the end of the wait: the head has expired, and the rest is shorter than the limit.
room_later :
    (l : SlidingWindowRateLimiter) (key : String) (t : ℕ) (ts : List ℕ)
    → Distinct l.hits
    → hits_of key l.hits ≡ t ∷ ts
    → length (t ∷ ts) ≤ l.max_requests
    → (check l key (t + l.window_seconds)).1.allowed ≡ true
unfolding check
room_later l key t ts d e n =
    let r : ℕ = t + l.window_seconds in
    let d' : List ℕ = hits_of key (swept l r).hits in
    let same : (d' ≡ t ∷ ts) ⊎ (d' ≡ []) = ground (arith, hits_of-swept l r key d) in
    let short : length (drop_expired l.window_seconds r d') < l.max_requests =
      omega (arith, length-drop_expired-lt l.window_seconds t d' ts same) in
    allowed-admit (swept l r) key r ∙ ground (arith, limits-swept l r, short)

-- What a refusal says of the deque, and where it leaves the limiter.
denied_state :
    (l : SlidingWindowRateLimiter) (key : String) (now : ℕ)
    → let d = drop_expired l.window_seconds now (hits_of key l.hits) in
      (admit l key now).1.allowed ≡ false
      → (l.max_requests ≤ length d)
        × ((admit l key now).0 ≡ record l { hits = insert key d l.hits })
        × ((admit l key now).1.retry_after ≡ time_left l.window_seconds now d)
unfolding admit
denied_state l key now h = ground arith

-- What a refusal promises: a wait of at least one tick and at most a window, behind which the
-- request is let through.
abbrev pub Promised : SlidingWindowRateLimiter → String → ℕ → ℕ → Type 0
Promised l key now wait =
    (0 < wait) × (wait ≤ l.window_seconds) × ((check l key (now + wait)).1.allowed ≡ true)

promise :
    (l : SlidingWindowRateLimiter) (key : String) (now w : ℕ) (d ts : List ℕ)
    → 1 ≤ l.max_requests
    → IsWithin l
    → Between 0 now d
    → l.window_seconds ≡ w
    → hits_of key l.hits ≡ d
    → l.max_requests ≤ length d
    → drop_expired w now ts ≡ d
    → Promised l key now (time_left w now d)
promise l key now w [] ts pos v b f e full from = absurd (omega arith)
promise l key now w (t ∷ d) ts pos v b f e full from =
    let live : expired w now t ≡ false = drop_expired-head w now t ts d from in
    let late : now < t + w = leb_false→lt _ _ live in
    let early : t ≤ now = Between-le t now d b.1 in
    let fits : length (t ∷ d) ≤ l.max_requests = rw e at (v.within key) in
    let at_end : now + (t + w - now) ≡ t + l.window_seconds = omega (arith, f) in
    (omega arith, omega (arith, f), rw at_end (room_later l key t d v.distinct e fits))

retry_admit :
    (l : SlidingWindowRateLimiter) (key : String) (now : ℕ)
    → 1 ≤ l.max_requests
    → IsWithin l
    → Between 0 now (hits_of key l.hits)
    → (admit l key now).1.allowed ≡ false
    → Promised (admit l key now).0 key now (admit l key now).1.retry_after
retry_admit l key now pos v b denied =
    let w : ℕ = l.window_seconds in
    let old : List ℕ = hits_of key l.hits in
    let d : List ℕ = drop_expired w now old in
    let (full, state, wait) = denied_state l key now denied in
    rw (wait, state)
      (promise (record l { hits = insert key d l.hits }) key now w d old pos
        (write-IsWithin l key d (omega (arith, length-drop_expired-le w now old, v.within key)) v)
        (drop_expired-Between w now 0 now old b) refl
        (hits_of-insert key key d l.hits ∙ rw (eq_refl key)) full refl)

swept-Between :
    (l : SlidingWindowRateLimiter) (log : Log) (last now : ℕ) (key : String)
    → last ≤ now
    → Refines l log last
    → Between 0 now (hits_of key (swept l now).hits)
swept-Between l log last now key h r = elim (hits_of-swept l now key r.distinct) [
  | inl e ↦ rw e (Between-mono 0 last now _ h (r.ordered key))
  | inr e ↦ rw e (omega arith)
]

-- A limit of at least one, no deque above the limit, and a clock that does not go back: a refused
-- caller who comes back after `retry_after` is let through, if nobody else called meanwhile; the
-- wait is at least one tick and at most the window.
pub retry_after_lem :
    (l : SlidingWindowRateLimiter) (log : Log) (last now : ℕ) (key : String)
    → 1 ≤ l.max_requests
    → IsWithin l
    → Refines l log last
    → last ≤ now
    → (check l key now).1.allowed ≡ false
    → Promised (check l key now).0 key now (check l key now).1.retry_after
retry_after_lem l log last now key pos v r h denied = rw (check_lem l key now) (
    retry_admit (swept l now) key now (omega (arith, ap (λ p. p.0) (limits-swept l now)))
      (swept-IsWithin l now v) (swept-Between l log last now key h r)
      (rw (check_lem l key now) at denied))

empty-IsWithin : (l : SlidingWindowRateLimiter) → l.hits ≡ [] → IsWithin l
unfolding hits_of lookup
empty-IsWithin l e = record { within = λ k. rw (e, hits_of) (omega arith); distinct = rw e tt }

-- A fresh limiter has no long deque.
pub init-IsWithin : (m w : ℕ) (l : SlidingWindowRateLimiter) → init m w ≡ some l → IsWithin l
init-IsWithin m w l e = empty-IsWithin l (init-hits m w l e)
