-- ===== src/Platform.antt =====
-- What the program takes from outside: the hash of `hashlib`, the canonical form of `json.dumps`
-- (sorted keys, no spaces, ASCII), the NFKC normal form of `unicodedata` on code points, the search
-- of `re` for the pattern of a scanner rule, given by its text and ignoring case, and the texts that Python's
-- format makes of a duration (`{d:g}`) and of a duration rounded up to whole seconds.
use agentic_firewall.Base.{ℕ, String, Bool, List}
use agentic_firewall.Json.{Fields}

pub record Platform : Type 0 where
  pub sha256 : String → String
  pub dumps : Fields → String
  pub nfkc : List ℕ → List ℕ
  pub search : String → List ℕ → Bool
  pub general : ℕ → String
  pub ceil_seconds : ℕ → String
