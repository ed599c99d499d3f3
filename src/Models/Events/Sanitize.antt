-- ===== src/Models/Events/Sanitize.antt =====
-- `sanitize` of app/models/events.py, which blanks and cuts the texts of an event.
use Prim.Native.Char.{Char, code}
use agentic_firewall.Base.{
  ℕ, zero, suc, ◌-◌, ◌≤◌, ◌≡◌, refl, ap, String, Bool, true, not, ◌||◌, arith, leb, leb→le, le→leb,
  text_length, text_take, text_length-text_take-le, all_codes, in_range, if◌then◌else◌, inl, inr,
  eqb, Bool-cases,
}

-- _UNSAFE_LOG_CHARS
unfoldable pub is_unsafe : ℕ → Bool
is_unsafe c =
    in_range 0x00 0x1f c
    || in_range 0x7f 0x9f c
    || in_range 0x2028 0x2029 c
    || in_range 0x200b 0x200f c
    || in_range 0x202a 0x202e c
    || in_range 0x2060 0x2069 c
    || eqb 0xfeff c

-- _UNSAFE_LOG_CHARS.sub(" ", text)
unfoldable pub blank_unsafe : String → String
blank_unsafe String.[] = ""
blank_unsafe (String.◌∷◌ c s) = String.◌∷◌ (if is_unsafe (code c) then " " else c) (blank_unsafe s)

-- s + "…"
append_ellipsis : String → String
append_ellipsis String.[] = "…"
append_ellipsis (String.◌∷◌ c s) = String.◌∷◌ c (append_ellipsis s)

-- `max_len` is at least 1: the program's calls leave the default of 300.
unfoldable pub sanitize : ℕ → String → String
unfolding append_ellipsis
sanitize max_len text =
    let s = blank_unsafe text in
    if leb (text_length s) max_len then s else append_ellipsis (text_take (max_len - 1) s)

abbrev pub is_safe : ℕ → Bool
is_safe c = not (is_unsafe c)

char_safe : (c : Char) → is_safe (code (if is_unsafe (code c) then " " else c)) ≡ true
char_safe c = elim (Bool-cases (is_unsafe (code c))) [
  | inl e ↦ rw e (unfold is_unsafe in refl)
  | inr e ↦ rw (e, e) refl
]

blank_unsafe_safe : (s : String) → all_codes is_safe (blank_unsafe s) ≡ true
unfolding blank_unsafe all_codes
blank_unsafe_safe String.[] = refl
blank_unsafe_safe (String.◌∷◌ c s) = rw (char_safe c, blank_unsafe_safe s)

text_take_safe :
    (p : ℕ → Bool) (n : ℕ) (s : String) → all_codes p s ≡ true → all_codes p (text_take n s) ≡ true
unfolding text_take all_codes
text_take_safe p zero s h = refl
text_take_safe p (suc n) String.[] h = refl
text_take_safe p (suc n) (String.◌∷◌ c s) h = ground (arith, text_take_safe p n s)

append_ellipsis_safe :
    (s : String) → all_codes is_safe s ≡ true → all_codes is_safe (append_ellipsis s) ≡ true
unfolding append_ellipsis all_codes
append_ellipsis_safe String.[] h = unfold is_unsafe in refl
append_ellipsis_safe (String.◌∷◌ c s) h = ground (arith, append_ellipsis_safe s)

text_length-append_ellipsis : (s : String) → text_length (append_ellipsis s) ≡ suc (text_length s)
unfolding append_ellipsis text_length
text_length-append_ellipsis String.[] = refl
text_length-append_ellipsis (String.◌∷◌ c s) = ap suc (text_length-append_ellipsis s)

pub sanitize_safe :
    (n : ℕ) (s : String)
    → 1 ≤ n
    → (all_codes is_safe (sanitize n s) ≡ true) × (text_length (sanitize n s) ≤ n)
unfolding sanitize
sanitize_safe n s h =
    let b : String = blank_unsafe s in
    let cut : String = text_take (n - 1) b in
    elim (Bool-cases (leb (text_length b) n)) [
      | inl e ↦ rw e (blank_unsafe_safe s, leb→le _ _ e)
      | inr e ↦ rw e (
        append_ellipsis_safe cut (text_take_safe is_safe (n - 1) b (blank_unsafe_safe s)),
        omega (arith, text_length-append_ellipsis cut, text_length-text_take-le (n - 1) b),
      )
    ]

blank_unsafe_fixed : (s : String) → all_codes is_safe s ≡ true → blank_unsafe s ≡ s
unfolding blank_unsafe all_codes
blank_unsafe_fixed String.[] h = refl
blank_unsafe_fixed (String.◌∷◌ c s) h = ground (arith, blank_unsafe_fixed s)

-- A text that is clean and short enough, such as one that was sanitized before, is left as it is.
pub sanitize_fixed :
    (n : ℕ) (s : String) → all_codes is_safe s ≡ true → text_length s ≤ n → sanitize n s ≡ s
unfolding sanitize
sanitize_fixed n s safe short = rw (blank_unsafe_fixed s safe, le→leb _ _ short)
