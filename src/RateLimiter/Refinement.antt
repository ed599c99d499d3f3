-- ===== src/RateLimiter/Refinement.antt =====
-- `check` of app/firewall/rate_limiter.py against its specification: a log of the granted requests
-- that never forgets, where a request is granted while the log has fewer than `max_requests` of
-- its key within the window.
use agentic_firewall.Base.{
  ℕ, ◌≤◌, ◌≡◌, ◌≢◌, refl, sym, ap, ◌∙◌, inl, inr, String, Bool, false, true, not, List, [], ◌∷◌,
  ◌++◌, arith, ◌==◌, ltb, leb, eq_iff, eq_refl, eq_false, length, some, keep-append, if◌then◌else◌,
  Bool-cases,
}
use agentic_firewall.Dict.{
  Dict, lookup, insert, keep_entries, Distinct, insert-Distinct, lookup-insert, lookup-keep_entries,
  keep_entries-Distinct,
}
use agentic_firewall.RateLimiter.{
  SlidingWindowRateLimiter, drop_expired, is_stale, sweep, swept, hits_of, admit, check, init,
  sweep_threshold,
}
use agentic_firewall.RateLimiter.Deque.{
  window, Between, Between-mono, append-Between, drop_expired-Between, drop_expired-window,
  window-window, is_stale-window,
}

-- The granted requests, in order: who and when.
abbrev pub Log : Type 0
Log = List (String × ℕ)

abbrev pub times : String → Log → List ℕ
times key [] = []
times key ((k, t) ∷ log) = let rest = times key log in if k == key then t ∷ rest else rest

-- The specification's test.
abbrev pub has_room : ℕ → ℕ → Log → String → ℕ → Bool
has_room max_requests w log key now = ltb (length (window w now (times key log))) max_requests

abbrev pub granted : Bool → Log → String → ℕ → Log
granted true log key now = log ++ (key, now) ∷ []
granted false log key now = log

pub times-append :
    (key k : String) (t : ℕ) (log : Log)
    → times key (log ++ (k, t) ∷ []) ≡ (if k == key then times key log ++ t ∷ [] else times key log)
times-append key k t [] = ground arith
times-append key k t ((j, u) ∷ log) = ground (arith, times-append key k t log)

-- The limiter `l` stands for the log, and the clock has last read `last`.
pub record Refines (l : SlidingWindowRateLimiter) (log : Log) (last : ℕ) : Type 0 where
  pub distinct : Distinct l.hits
  pub ordered : (k : String) → Between 0 last (hits_of k l.hits)
  pub agrees :
      (k : String) (now : ℕ)
      → last ≤ now
      → window l.window_seconds now (hits_of k l.hits) ≡ window l.window_seconds now (times k log)

pub hits_of-insert :
    (k j : String) (d : List ℕ) (m : Dict (List ℕ))
    → hits_of j (insert k d m) ≡ (if k == j then d else hits_of j m)
unfolding hits_of
hits_of-insert k j d m = ground (arith, lookup-insert k j d m)

pub hits_of-keep_entries :
    (w now : ℕ) (k : String) (m : Dict (List ℕ))
    → Distinct m
    → hits_of k (keep_entries (λ d. not (is_stale w now d)) m)
      ≡ (if is_stale w now (hits_of k m) then [] else hits_of k m)
unfolding hits_of
hits_of-keep_entries w now k m d =
    ground (arith, lookup-keep_entries (λ d. not (is_stale w now d)) k m d)

module _ (log : Log) (last now : ℕ) (later : last ≤ now) where
  pub wait-Refines : (l : SlidingWindowRateLimiter) → Refines l log last → Refines l log now
  wait-Refines l r = record {
    distinct = r.distinct;
    ordered = λ k. Between-mono 0 last now (hits_of k l.hits) later (r.ordered k);
    agrees = λ k t h. r.agrees k t (omega arith);
  }

  sweep-agrees :
      (l : SlidingWindowRateLimiter) (w t : ℕ) (k : String)
      → Refines l log last
      → now ≤ t
      → window w t (hits_of k (keep_entries (λ d. not (is_stale w now d)) l.hits))
        ≡ window w t (hits_of k l.hits)
  sweep-agrees l w t k r h = elim (Bool-cases (is_stale w now (hits_of k l.hits))) [
    | inl e ↦
        rw (hits_of-keep_entries w now k l.hits r.distinct, e)
          (ground (arith, is_stale-window w now t 0 last (hits_of k l.hits) h (r.ordered k) e))
    | inr e ↦ rw (hits_of-keep_entries w now k l.hits r.distinct, e)
  ]

  sweep-ordered :
      (l : SlidingWindowRateLimiter) (w : ℕ) (k : String)
      → Refines l log last
      → Between 0 now (hits_of k (keep_entries (λ d. not (is_stale w now d)) l.hits))
  sweep-ordered l w k r = ground (
    arith,
    hits_of-keep_entries w now k l.hits r.distinct,
    Between-mono 0 last now (hits_of k l.hits) later (r.ordered k),
  )

  sweep-Refines :
      (l : SlidingWindowRateLimiter) → Refines l log last → Refines (sweep l now) log now
  unfolding sweep
  sweep-Refines l r = record {
    distinct = keep_entries-Distinct _ l.hits r.distinct;
    ordered = λ k. sweep-ordered l l.window_seconds k r;
    agrees = λ k t h. sweep-agrees l l.window_seconds t k r h ∙ r.agrees k t (omega arith);
  }

module _ (log : Log) (now : ℕ) (key : String) where
  recent : (l : SlidingWindowRateLimiter) → List ℕ
  recent l = drop_expired l.window_seconds now (hits_of key l.hits)

  recent-window :
      (l : SlidingWindowRateLimiter)
      → Refines l log now
      → recent l ≡ window l.window_seconds now (times key log)
  unfolding recent
  recent-window l r =
      drop_expired-window l.window_seconds now 0 now (hits_of key l.hits) (r.ordered key)
      ∙ r.agrees key now (omega arith)

  -- What a write of the deque `d` under `key` must satisfy to stand for the log `new`.
  write-Refines :
      (l : SlidingWindowRateLimiter) (d : List ℕ) (new : Log)
      → Refines l log now
      → Between 0 now d
      → ((t : ℕ)
          → now ≤ t
          → window l.window_seconds t d ≡ window l.window_seconds t (times key new))
      → ((k : String) → key ≢ k → times k new ≡ times k log)
      → Refines (record l { hits = insert key d l.hits }) new now
  write-Refines l d new r ordered mine others = record {
    distinct = insert-Distinct key d l.hits r.distinct;
    ordered = λ k. ground (arith, hits_of-insert key k d l.hits, r.ordered k);
    agrees = λ k t h.
        ground
          (arith, hits_of-insert key k d l.hits, r.agrees k t h, mine t h, others k, eq_iff key k);
  }

  recent-Between : (l : SlidingWindowRateLimiter) → Refines l log now → Between 0 now (recent l)
  unfolding recent
  recent-Between l r = drop_expired-Between l.window_seconds now 0 now _ (r.ordered key)

  recent-agrees :
      (l : SlidingWindowRateLimiter) (t : ℕ)
      → Refines l log now
      → now ≤ t
      → window l.window_seconds t (recent l) ≡ window l.window_seconds t (times key log)
  recent-agrees l t r h =
      rw (recent-window l r) (window-window l.window_seconds now t (times key log) h)

  denied-Refines :
      (l : SlidingWindowRateLimiter)
      → Refines l log now
      → Refines (record l { hits = insert key (recent l) l.hits }) log now
  denied-Refines l r =
      write-Refines l (recent l) log r (recent-Between l r) (λ t h. recent-agrees l t r h)
        (λ k ne. refl)

  granted-agrees :
      (l : SlidingWindowRateLimiter) (t : ℕ)
      → Refines l log now
      → now ≤ t
      → window l.window_seconds t (recent l ++ now ∷ [])
        ≡ window l.window_seconds t (times key (log ++ (key, now) ∷ []))
  granted-agrees l t r h =
      rw (times-append key key now log, eq_refl key)
        (keep-append _ (recent l) (now ∷ [])
          ∙ ap (λ ts. ts ++ window l.window_seconds t (now ∷ [])) (recent-agrees l t r h)
          ∙ sym (keep-append _ (times key log) (now ∷ [])))

  granted-Refines :
      (l : SlidingWindowRateLimiter)
      → Refines l log now
      → Refines
          (record l { hits = insert key (recent l ++ now ∷ []) l.hits })
          (log ++ (key, now) ∷ [])
          now
  granted-Refines l r =
      write-Refines l (recent l ++ now ∷ []) (log ++ (key, now) ∷ []) r
        (append-Between 0 now now (recent l) (omega arith) (recent-Between l r))
        (λ t h. granted-agrees l t r h) (λ k ne. rw (times-append k key now log, eq_false key k ne))

  room_full :
      (l : SlidingWindowRateLimiter)
      → Refines l log now
      → has_room l.max_requests l.window_seconds log key now
        ≡ not (leb l.max_requests (length (recent l)))
  room_full l r = rw (recent-window l r) (ground arith)

  admit-Refines :
      (l : SlidingWindowRateLimiter)
      → Refines l log now
      → let room = has_room l.max_requests l.window_seconds log key now in
        ((admit l key now).1.allowed ≡ room)
        × Refines (admit l key now).0 (granted room log key now) now
  unfolding admit recent
  admit-Refines l r = elim (Bool-cases (leb l.max_requests (length (recent l)))) [
    | inl e ↦ rw (room_full l r, e) (refl, denied-Refines l r)
    | inr e ↦ rw (room_full l r, e) (refl, granted-Refines l r)
  ]

-- A call of `check` at a time no earlier than the last grants exactly what the log grants, and the
-- limiter goes on standing for the log, also where it sweeps.
pub check-Refines :
    (l : SlidingWindowRateLimiter) (log : Log) (last now : ℕ) (key : String)
    → last ≤ now
    → Refines l log last
    → let room = has_room l.max_requests l.window_seconds log key now in
      ((check l key now).1.allowed ≡ room)
      × Refines (check l key now).0 (granted room log key now) now
unfolding check swept sweep
check-Refines l log last now key h r = elim (Bool-cases (ltb sweep_threshold (length l.hits))) [
  | inl e ↦ rw e (admit-Refines log now key (sweep l now) (sweep-Refines log last now h l r))
  | inr e ↦ rw e (admit-Refines log now key l (wait-Refines log last now h l r))
]

pub empty-Refines : (l : SlidingWindowRateLimiter) → l.hits ≡ [] → Refines l [] 0
unfolding hits_of lookup
empty-Refines l e = record {
  distinct = rw e tt;
  ordered = λ k. rw (e, hits_of) (omega arith);
  agrees = λ k now h. rw (e, hits_of);
}

pub init-hits : (m w : ℕ) (l : SlidingWindowRateLimiter) → init m w ≡ some l → l.hits ≡ []
unfolding init
init-hits m w l e = ground arith

-- A fresh limiter stands for the empty log.
pub init-Refines : (m w : ℕ) (l : SlidingWindowRateLimiter) → init m w ≡ some l → Refines l [] 0
init-Refines m w l e = empty-Refines l (init-hits m w l e)
