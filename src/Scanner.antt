-- ===== src/Scanner.antt =====
-- app/firewall/scanner.py. The patterns of the rules are searched by the platform; the tables of
-- rules, the hidden characters, the normalisation around NFKC and the walk over a value are here.
pub mod Rules
pub mod Walk
pub mod Clean
pub mod Sound
pub mod Exact
mod Tests
use Prim.Native.String.{◌++◌}
use Prim.Native.Nat.{◌/◌, ◌%◌}
use agentic_firewall.Base.{
  ℕ, zero, suc, ◌+◌, ◌-◌, String, Bool, true, false, ◌||◌, not, List, [], ◌∷◌, eqb, ltb, codes,
  in_range, keep, text_length, if◌then◌else◌,
}
use agentic_firewall.Base.{◌++◌ as append}
use agentic_firewall.Platform.{Platform}
use Rules.{Direction, Rule, rules_for}

pub record Finding : Type 0 where
  pub rule : String
  pub category : String
  pub location : String

-- _FLAG_RE
unfoldable pub is_flagged : ℕ → Bool
is_flagged c =
    eqb 0x200b c
    || in_range 0x2060 0x2064 c
    || in_range 0x202a 0x202e c
    || in_range 0x2066 0x2069 c
    || eqb 0xfeff c
    || in_range 0xe0000 0xe007f c

-- _STRIP_RE
unfoldable pub is_stripped : ℕ → Bool
is_stripped c =
    in_range 0x200b 0x200f c
    || in_range 0x2060 0x2064 c
    || in_range 0x202a 0x202e c
    || in_range 0x2066 0x2069 c
    || eqb 0xfeff c
    || eqb 0x00ad c
    || in_range 0xe0000 0xe007f c

-- \s, the white space of Unicode
unfoldable pub is_space : ℕ → Bool
is_space c =
    in_range 0x09 0x0d c
    || in_range 0x1c 0x20 c
    || eqb 0x85 c
    || eqb 0xa0 c
    || eqb 0x1680 c
    || in_range 0x2000 0x200a c
    || in_range 0x2028 0x2029 c
    || eqb 0x202f c
    || eqb 0x205f c
    || eqb 0x3000 c

unfoldable pub has_flagged : List ℕ → Bool
unfolding is_flagged
has_flagged [] = false
has_flagged (c ∷ s) = is_flagged c || has_flagged s

-- _WS_RE.sub(" ", s); `inside` tells that the last character was white space.
unfoldable pub collapse : Bool → List ℕ → List ℕ
unfolding is_space
collapse inside [] = []
collapse inside (c ∷ s) =
    let rest = collapse (is_space c) s in
    if is_space c then (if inside then rest else b' ' ∷ rest) else c ∷ rest

module _ (platform : Platform) where
  -- The text that the rules are searched in.
  unfoldable pub normalize : String → List ℕ
  unfolding collapse is_stripped codes
  normalize s = collapse false (keep (λ c. not (is_stripped c)) (platform.nfkc (codes s)))

  unfoldable pub apply_rules : List Rule → List ℕ → String → List Finding
  apply_rules [] norm location = []
  apply_rules (r ∷ rules) norm location =
      let rest = apply_rules rules norm location in
      if platform.search r.pattern norm
      then record { rule = r.name; category = r.category; location = location } ∷ rest
      else rest

  unfoldable pub scan_text : String → Direction → String → List Finding
  scan_text s direction location =
      let found = apply_rules (rules_for direction) (normalize s) location in
      if has_flagged (codes s)
      then record { rule = "hidden_characters"; category = "obfuscation"; location = location }
        ∷ found
      else found

-- `_State`. Below zero the budget is not read again, so it stops at 0 here.
pub record State : Type 0 where
  pub budget : ℕ
  pub findings : List Finding
  pub stop : Bool

-- An `oversized_payload` or `excessive_nesting` finding, and the end of the scan.
unfoldable pub give_up : State → String → String → State
give_up st rule location = record st {
  findings =
      append st.findings
        (record { rule = rule; category = "resource_abuse"; location = location } ∷ []);
  stop = true;
}

digit : ℕ → String
digit zero = "0"
digit (suc zero) = "1"
digit (suc (suc zero)) = "2"
digit (suc (suc (suc zero))) = "3"
digit (suc (suc (suc (suc zero)))) = "4"
digit (suc (suc (suc (suc (suc zero))))) = "5"
digit (suc (suc (suc (suc (suc (suc zero)))))) = "6"
digit (suc (suc (suc (suc (suc (suc (suc zero))))))) = "7"
digit (suc (suc (suc (suc (suc (suc (suc (suc zero)))))))) = "8"
digit _ = "9"

-- The decimal digits of a number below 10 ^ fuel.
decimal_within : ℕ → ℕ → String
decimal_within zero n = ""
decimal_within (suc fuel) n =
    let rest = decimal_within fuel (n / 10) in if ltb n 10 then digit n else rest ++ digit (n % 10)

-- str(n)
unfoldable pub decimal : ℕ → String
unfolding decimal_within digit
decimal n = decimal_within (suc n) n

abbrev pub max_depth : ℕ
max_depth = 20

module _ (platform : Platform) (direction : Direction) where
  unfoldable pub scan_string : String → String → State → State
  scan_string s loc st =
      if ltb st.budget (text_length s + 1)
      then give_up (record st { budget = 0 }) "oversized_payload" loc
      else record st {
        budget = st.budget - (text_length s + 1);
        findings = append st.findings (scan_text platform s direction loc);
      }
