-- ===== src/Gateway/Approve/Listed.antt =====
-- What the dictionaries that `approve_tools` of app/firewall/gateway.py makes of the upstream's tools
-- say of the list itself.
use agentic_firewall.Base.{
  ℕ, suc, ◌+◌, ◌≡◌, ◌≢◌, refl, sym, ◌∙◌, ap, eq_iff, String, false, Option, none, some, List, [],
  ◌∷◌, arith, ltb, ◌==◌, keep, length, Bool-cases, inl, inr, if◌then◌else◌,
}
use agentic_firewall.Dict.{Dict, lookup, insert, lookup-insert}
use agentic_firewall.Models.Requests.{ToolDefinition}
use agentic_firewall.Gateway.Wanted.{count_of, counts_from, by_name_from}

-- The definitions that stand in a list under a name.
abbrev pub under : String → List ToolDefinition → List ToolDefinition
under name tools = keep (λ d. d.name == name) tools

-- The last one of a list, or what was there before.
abbrev last_or : Option ToolDefinition → List ToolDefinition → Option ToolDefinition
last_or o [] = o
last_or o (d ∷ ds) = last_or (some d) ds

counts-insert :
    (name : String) (t : ToolDefinition) (counts : Dict ℕ)
    → count_of (lookup name (insert t.name (suc (count_of (lookup t.name counts))) counts)) ≡ (
        if t.name == name
        then suc (count_of (lookup name counts))
        else count_of (lookup name counts))
counts-insert name t counts = elim (Bool-cases (t.name == name)) [
  | inl same ↦
      rw (lookup-insert t.name name (suc (count_of (lookup t.name counts))) counts, same)
        (ap (λ k. suc (count_of (lookup k counts))) ((eq_iff t.name name).0 same))
  | inr other ↦
      rw (lookup-insert t.name name (suc (count_of (lookup t.name counts))) counts, other) refl
]

-- The count of a name is the number of definitions under it.
count_of-counts_from :
    (name : String) (counts : Dict ℕ) (tools : List ToolDefinition)
    → count_of (lookup name (counts_from counts tools))
      ≡ count_of (lookup name counts) + length (under name tools)
unfolding counts_from
count_of-counts_from name counts [] = omega arith
count_of-counts_from name counts (t ∷ tools) =
    let more : Dict ℕ = insert t.name (suc (count_of (lookup t.name counts))) counts in
    let rest = count_of-counts_from name more tools in
    let first = counts-insert name t counts in
    elim (Bool-cases (t.name == name)) [
      | inl same ↦ rest ∙ rw (first, same) (omega arith)
      | inr other ↦ rest ∙ rw (first, other) refl
    ]

-- The definition that a name stands for is the last one under it.
lookup-by_name_from :
    (name : String) (by_name : Dict ToolDefinition) (tools : List ToolDefinition)
    → lookup name (by_name_from by_name tools) ≡ last_or (lookup name by_name) (under name tools)
unfolding by_name_from
lookup-by_name_from name by_name [] = refl
lookup-by_name_from name by_name (t ∷ tools) = elim (Bool-cases (t.name == name)) [
  | inl same ↦
      lookup-by_name_from name (insert t.name t by_name) tools
      ∙ rw (lookup-insert t.name name t by_name, same) refl
  | inr other ↦
      lookup-by_name_from name (insert t.name t by_name) tools
      ∙ rw (lookup-insert t.name name t by_name, other) refl
]

many : (n : ℕ) → ltb 1 (suc (suc n)) ≢ false
many n h = ground arith

only_one :
    (ds : List ToolDefinition) (d : ToolDefinition)
    → last_or none ds ≡ some d
    → ltb 1 (length ds) ≡ false
    → ds ≡ d ∷ []
only_one [] d e h = cc
only_one (x ∷ []) d e h = ground arith
only_one (x ∷ y ∷ ds) d e h = absurd (many (length ds) h)

-- A name that is counted at most once stands for the only definition under it.
pub under_unique :
    (name : String) (tools : List ToolDefinition) (d : ToolDefinition)
    → lookup name (by_name_from [] tools) ≡ some d
    → ltb 1 (count_of (lookup name (counts_from [] tools))) ≡ false
    → under name tools ≡ d ∷ []
unfolding lookup
under_unique name tools d e h =
    only_one (under name tools) d (sym (lookup-by_name_from name [] tools) ∙ e)
      (ap (λ n. ltb 1 n) (sym (count_of-counts_from name [] tools ∙ omega arith)) ∙ h)

-- A dictionary of definitions by their names.
abbrev pub Keyed : Dict ToolDefinition → Type 0
Keyed by_name = (k : String) (d : ToolDefinition) → lookup k by_name ≡ some d → d.name ≡ k

pub empty-Keyed : Keyed []
unfolding lookup
empty-Keyed = λ k d e. cc

insert-Keyed :
    (by_name : Dict ToolDefinition) (t : ToolDefinition)
    → Keyed by_name
    → Keyed (insert t.name t by_name)
insert-Keyed by_name t keyed k d e =
    ground (arith, lookup-insert t.name k t by_name, eq_iff t.name k, keyed k d)

pub by_name_from-Keyed :
    (by_name : Dict ToolDefinition) (tools : List ToolDefinition)
    → Keyed by_name
    → Keyed (by_name_from by_name tools)
unfolding by_name_from
by_name_from-Keyed by_name [] keyed = keyed
by_name_from-Keyed by_name (t ∷ tools) keyed =
    by_name_from-Keyed (insert t.name t by_name) tools (insert-Keyed by_name t keyed)
