-- ===== src/Gateway/Wanted.antt =====
-- The parts of `approve_tools` of app/firewall/gateway.py that touch no state: the dictionaries over
-- the upstream's tools, the names that are wanted, and the words of an outcome.
use Prim.Native.Char.{code}
use agentic_firewall.Base.{
  ℕ, suc, String, ◌&&◌, ◌||◌, Option, none, some, List, [], ◌∷◌, ◌==◌, eqb, contains, if◌then◌else◌,
}
use agentic_firewall.Dict.{Dict, lookup, insert}
use agentic_firewall.Models.Events.{Decision, allow, deny}
use agentic_firewall.Models.Requests.{ToolDefinition, ApprovalOutcome}

-- counts.get(t.name, 0)
abbrev pub count_of : Option ℕ → ℕ
count_of none = 0
count_of (some n) = n

-- One more for each tool's name.
unfoldable pub counts_from : Dict ℕ → List ToolDefinition → Dict ℕ
counts_from counts [] = counts
counts_from counts (t ∷ tools) =
    counts_from (insert t.name (suc (count_of (lookup t.name counts))) counts) tools

-- {t.name: t for t in tools}
unfoldable pub by_name_from : Dict ToolDefinition → List ToolDefinition → Dict ToolDefinition
by_name_from by_name [] = by_name
by_name_from by_name (t ∷ tools) = by_name_from (insert t.name t by_name) tools

-- list(dict.fromkeys(names)); `seen` holds the names that stood before.
unfoldable pub without_repeats : List String → List String → List String
without_repeats seen [] = []
without_repeats seen (name ∷ names) =
    let rest = without_repeats (name ∷ seen) names in
    if contains name seen then rest else name ∷ rest

abbrev keys {ℓ} : {V : Type ℓ} → Dict V → List String
keys [] = []
keys ((name, v) ∷ d) = name ∷ keys d

unfoldable pub wanted : Option (List String) → Dict ToolDefinition → List String
wanted none by_name = keys by_name
wanted (some names) by_name = without_repeats [] names

-- s.rstrip(": ")
unfoldable pub strip_end : String → String
strip_end String.[] = ""
strip_end (String.◌∷◌ c s) =
    let rest = strip_end s in
    if (rest == "") && (eqb (code c) b':' || eqb (code c) b' ') then "" else String.◌∷◌ c rest

abbrev pub failed_outcome : String → String → String → ApprovalOutcome
failed_outcome tool status reason = record {
  tool = tool;
  status = status;
  fingerprint = none;
  reason = reason;
}

-- The status of an approval, from the fingerprint that was pinned before.
abbrev pub approval_status : Option String → String → String
approval_status none fp = "approved"
approval_status (some previous) fp = if previous == fp then "unchanged" else "updated"

-- outcome.status in ("approved", "updated", "unchanged")
abbrev pub approval_decision : ApprovalOutcome → Decision
approval_decision o =
    if (o.status == "approved") || (o.status == "updated") || (o.status == "unchanged")
    then allow
    else deny
