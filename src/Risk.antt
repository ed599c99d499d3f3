-- ===== src/Risk.antt =====
-- app/firewall/risk.py. A word is a list of code points.
pub mod Danger
mod Tests
use agentic_firewall.Base.{
  ℕ, ◌+◌, String, Bool, true, false, ◌&&◌, ◌||◌, none, some, List, [], ◌∷◌, ◌++◌, map, eqb, codes,
  is_upper, is_lower, is_digit, is_alnum, if◌then◌else◌,
}
use agentic_firewall.Dict.{Dict, lookup}
use agentic_firewall.Models.Policies.{RiskLevel, low, medium, high, critical}

abbrev pub Word : Type 0
Word = List ℕ

abbrev pub critical_words : List String
critical_words =
    "shell" ∷ "bash" ∷ "sudo" ∷ "eval" ∷ "exec" ∷ "cmd" ∷ "powershell" ∷ "subprocess" ∷ "terminal"
    ∷ []

abbrev pub launch_verbs : List String
launch_verbs = "execute" ∷ "run" ∷ "invoke" ∷ "launch" ∷ []

abbrev pub code_objects : List String
code_objects =
    "command" ∷ "commands" ∷ "cmd" ∷ "script" ∷ "code" ∷ "program" ∷ "binary" ∷ "process" ∷ []

abbrev pub high_words : List String
high_words =
    "delete" ∷ "remove" ∷ "drop" ∷ "truncate" ∷ "destroy" ∷ "erase" ∷ "wipe" ∷ "purge" ∷ "kill"
    ∷ "terminate" ∷ "revoke" ∷ "format" ∷ "reset" ∷ "shutdown" ∷ "execute" ∷ "trade" ∷ "buy"
    ∷ "sell" ∷ "transfer" ∷ "withdraw" ∷ "pay" ∷ "payment" ∷ "grant" ∷ []

abbrev pub medium_words : List String
medium_words =
    "write" ∷ "create" ∷ "update" ∷ "set" ∷ "save" ∷ "send" ∷ "post" ∷ "put" ∷ "add" ∷ "edit"
    ∷ "modify" ∷ "upload" ∷ "insert" ∷ "append" ∷ "move" ∷ "rename" ∷ "copy" ∷ "install" ∷ "deploy"
    ∷ "run" ∷ "submit" ∷ "email" ∷ "publish" ∷ "patch" ∷ "invoke" ∷ []

abbrev pub low_words : List String
low_words =
    "get" ∷ "read" ∷ "search" ∷ "list" ∷ "fetch" ∷ "query" ∷ "describe" ∷ "show" ∷ "find" ∷ "lookup"
    ∷ "view" ∷ "check" ∷ "count" ∷ "stat" ∷ "status" ∷ "summarize" ∷ "info" ∷ []

-- _CAMEL_RE.sub(r"\1_\2", name)
unfoldable pub mark_camel : List ℕ → List ℕ
mark_camel [] = []
mark_camel (a ∷ []) = a ∷ []
mark_camel (a ∷ b ∷ s) = elim ((is_lower a || is_digit a) && is_upper b) [
  | true ↦ a ∷ b'_' ∷ b ∷ mark_camel s
  | false ↦ a ∷ mark_camel (b ∷ s)
]

abbrev lower : ℕ → ℕ
lower c = if is_upper c then c + 32 else c

-- The word that has been read, unless it is empty, in front of the others.
abbrev flush : Word → List Word → List Word
flush [] ws = ws
flush (c ∷ w) ws = map lower (c ∷ w) ∷ ws

-- The words of _SPLIT_RE.split, in lower case, without the empty ones; `w` is the word begun.
unfoldable pub split_words : Word → List ℕ → List Word
split_words w [] = flush w []
split_words w (c ∷ s) = elim (is_alnum c) [
  | true ↦ split_words (w ++ c ∷ []) s
  | false ↦ flush w (split_words [] s)
]

-- `_words`
unfoldable pub words : String → List Word
unfolding mark_camel split_words
words name = split_words [] (mark_camel (codes name))

unfoldable pub same_word : Word → Word → Bool
same_word [] [] = true
same_word (a ∷ v) (b ∷ w) = eqb a b && same_word v w
same_word _ _ = false

unfoldable pub is_among : Word → List String → Bool
unfolding same_word codes
is_among w [] = false
is_among w (v ∷ vocabulary) = same_word w (codes v) || is_among w vocabulary

-- words & vocabulary
unfoldable pub meets : List Word → List String → Bool
meets [] vocabulary = false
meets (w ∷ ws) vocabulary = is_among w vocabulary || meets ws vocabulary

-- `classify` where there is no override.
unfoldable pub classify_words : List Word → RiskLevel
classify_words ws =
    if meets ws critical_words || (meets ws launch_verbs && meets ws code_objects)
    then critical
    else if meets ws high_words
    then high
    else if meets ws medium_words
    then medium
    else if meets ws low_words
    then low
    else medium

-- `RiskClassifier.classify`; a classifier is its overrides.
unfoldable pub classify : Dict RiskLevel → String → RiskLevel
unfolding words classify_words meets is_among
classify overrides tool_name = elim (lookup tool_name overrides) [
  | some level ↦ level
  | none ↦ classify_words (words tool_name)
]
