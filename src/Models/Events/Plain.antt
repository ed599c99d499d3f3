-- ===== src/Models/Events/Plain.antt =====
-- What `sanitize` of app/models/events.py promises, by the code points of the Unicode standard.
use Prim.Native.Char.{code}
use agentic_firewall.Base.{
  ℕ, ◌≤◌, ◌≡◌, refl, String, Bool, true, not, ◌||◌, arith, text_length, all_codes, in_range, eqb,
}
use agentic_firewall.Models.Events.Sanitize.{is_unsafe, is_safe, sanitize, sanitize_safe}

-- The control characters, of category Cc
abbrev is_control : ℕ → Bool
is_control c = in_range 0x00 0x1f c || in_range 0x7f 0x9f c

-- LINE SEPARATOR and PARAGRAPH SEPARATOR
abbrev is_separator : ℕ → Bool
is_separator c = eqb 0x2028 c || eqb 0x2029 c

-- LEFT-TO-RIGHT MARK and RIGHT-TO-LEFT MARK
abbrev is_mark : ℕ → Bool
is_mark c = eqb 0x200e c || eqb 0x200f c

-- The embeddings LRE and RLE, PDF, and the overrides LRO and RLO
abbrev is_embedding : ℕ → Bool
is_embedding c = eqb 0x202a c || eqb 0x202b c || eqb 0x202c c || eqb 0x202d c || eqb 0x202e c

-- The isolates LRI, RLI and FSI, and PDI
abbrev is_isolate : ℕ → Bool
is_isolate c = eqb 0x2066 c || eqb 0x2067 c || eqb 0x2068 c || eqb 0x2069 c

-- ZERO WIDTH SPACE, NON-JOINER, JOINER and NO-BREAK SPACE, and WORD JOINER
abbrev is_zero_width : ℕ → Bool
is_zero_width c = eqb 0x200b c || eqb 0x200c c || eqb 0x200d c || eqb 0xfeff c || eqb 0x2060 c

abbrev pub is_plain : ℕ → Bool
is_plain c = not (
    is_control c
    || is_separator c
    || is_mark c
    || is_embedding c
    || is_isolate c
    || is_zero_width c)

plain : (c : ℕ) → is_safe c ≡ true → is_plain c ≡ true
unfolding is_unsafe
plain c h = ground arith

all_plain : (s : String) → all_codes is_safe s ≡ true → all_codes is_plain s ≡ true
unfolding all_codes
all_plain String.[] h = refl
all_plain (String.◌∷◌ c s) h = ground (arith, plain (code c), all_plain s)

-- What `sanitize` returns holds no control character, no line or paragraph separator, no LEFT-TO-RIGHT
-- or RIGHT-TO-LEFT MARK, no directional embedding, override or isolate, and no zero-width space, joiner
-- or non-joiner; and it is no longer than the limit, if that is at least 1.
pub sanitize_lem :
    (n : ℕ) (s : String)
    → 1 ≤ n
    → (all_codes is_plain (sanitize n s) ≡ true) × (text_length (sanitize n s) ≤ n)
sanitize_lem n s h =
    let (safe, short) = sanitize_safe n s h in (all_plain (sanitize n s) safe, short)
