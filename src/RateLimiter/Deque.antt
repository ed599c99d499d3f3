-- ===== src/RateLimiter/Deque.antt =====
-- The deque of one key in app/firewall/rate_limiter.py: its order in time, and its expired front.
use agentic_firewall.Base.{
  ℕ, ◌≤◌, ◌≡◌, refl, not, true, false, List, [], ◌∷◌, ◌++◌, arith, length, keep,
}
use agentic_firewall.RateLimiter.{expired, drop_expired, is_stale}

-- The times of a list that have not expired.
abbrev pub window : ℕ → ℕ → List ℕ → List ℕ
window w now ts = keep (λ t. not (expired w now t)) ts

-- The list rises from `lo` to `hi`.
abbrev pub Between : ℕ → ℕ → List ℕ → Type 0
Between lo hi [] = lo ≤ hi
Between lo hi (t ∷ ts) = (lo ≤ t) × Between t hi ts

pub Between-mono : (lo hi hi' : ℕ) (ts : List ℕ) → hi ≤ hi' → Between lo hi ts → Between lo hi' ts
Between-mono lo hi hi' [] h b = omega arith
Between-mono lo hi hi' (t ∷ ts) h b = (b.0, Between-mono t hi hi' ts h b.1)

Between-lower : (lo lo' hi : ℕ) (ts : List ℕ) → lo ≤ lo' → Between lo' hi ts → Between lo hi ts
Between-lower lo lo' hi [] h b = omega arith
Between-lower lo lo' hi (t ∷ ts) h b = (omega arith, b.1)

pub Between-le : (lo hi : ℕ) (ts : List ℕ) → Between lo hi ts → lo ≤ hi
Between-le lo hi [] b = b
Between-le lo hi (t ∷ ts) b = omega (arith, Between-le t hi ts b.1)

pub append-Between :
    (lo hi t : ℕ) (ts : List ℕ) → hi ≤ t → Between lo hi ts → Between lo t (ts ++ t ∷ [])
append-Between lo hi t [] h b = omega arith
append-Between lo hi t (x ∷ ts) h b = (b.0, append-Between x hi t ts h b.1)

pub drop_expired-Between :
    (w now lo hi : ℕ) (ts : List ℕ) → Between lo hi ts → Between lo hi (drop_expired w now ts)
unfolding drop_expired
drop_expired-Between w now lo hi [] b = b
drop_expired-Between w now lo hi (t ∷ ts) b =
    ground
      (arith, drop_expired-Between w now t hi ts b.1, Between-lower lo t hi (drop_expired w now ts))

-- Behind a time that is live all are.
window_all :
    (w now lo hi : ℕ) (ts : List ℕ)
    → expired w now lo ≡ false
    → Between lo hi ts
    → window w now ts ≡ ts
window_all w now lo hi [] live b = refl
window_all w now lo hi (t ∷ ts) live b = ground (arith, window_all w now t hi ts)

pub drop_expired-window :
    (w now lo hi : ℕ) (ts : List ℕ) → Between lo hi ts → drop_expired w now ts ≡ window w now ts
unfolding drop_expired
drop_expired-window w now lo hi [] b = refl
drop_expired-window w now lo hi (t ∷ ts) b =
    ground (arith, drop_expired-window w now t hi ts b.1, window_all w now t hi ts)

-- A later window forgets no more than it would anyway.
pub window-window :
    (w now now' : ℕ) (ts : List ℕ) → now ≤ now' → window w now' (window w now ts) ≡ window w now' ts
window-window w now now' [] h = refl
window-window w now now' (t ∷ ts) h = ground (arith, window-window w now now' ts h)

pub length-window_mono :
    (w now now' : ℕ) (ts : List ℕ)
    → now ≤ now'
    → length (window w now' ts) ≤ length (window w now ts)
length-window_mono w now now' [] h = omega arith
length-window_mono w now now' (t ∷ ts) h = ground (arith, length-window_mono w now now' ts h)

-- A stale deque has nothing in any later window.
pub is_stale-window :
    (w now now' lo hi : ℕ) (ts : List ℕ)
    → now ≤ now'
    → Between lo hi ts
    → is_stale w now ts ≡ true
    → window w now' ts ≡ []
is_stale-window w now now' lo hi [] h b s = refl
is_stale-window w now now' lo hi (t ∷ []) h b s = ground arith
is_stale-window w now now' lo hi (t ∷ u ∷ ts) h b s =
    ground (arith, is_stale-window w now now' t hi (u ∷ ts) h b.1 s)
