-- ===== src/Risk/Tests.antt =====
-- The classifier on names of tools.
use agentic_firewall.Base.{◌≡◌, refl, [], ◌∷◌, eqb, if◌then◌else◌}
use agentic_firewall.Dict.{lookup}
use agentic_firewall.Models.Policies.{low, medium, high, critical, value}
use agentic_firewall.Risk.{words, classify}
use agentic_firewall.Risk.Danger.{launches, worst, classify-worst}

classify_camel : classify [] "executeCommand" ≡ critical
unfolding classify lookup
classify_camel = refl

classify_trade : classify [] "execute_trade" ≡ high
unfolding classify lookup
classify_trade = refl

classify_unknown : classify [] "frobnicate" ≡ medium
unfolding classify lookup
classify_unknown = refl

-- An acronym is not split from the word behind it.
classify_acronym : classify [] "SQLDelete" ≡ medium
unfolding classify lookup
classify_acronym = refl

classify_override : classify (("execute_command", low) ∷ []) "execute_command" ≡ low
unfolding classify lookup
classify_override = refl

classify-worst_example : value (classify [] "read_then_drop") ≡ (
    if launches (words "read_then_drop")
    then 4
    else if eqb (worst (words "read_then_drop")) 0
    then value medium
    else worst (words "read_then_drop"))
unfolding lookup
classify-worst_example = classify-worst [] "read_then_drop" refl
