-- ===== src/Risk/Danger.antt =====
-- The classifier against the most dangerous word of a name.
use Prim.Native.Nat.{max}
use agentic_firewall.Base.{
  ℕ, ◌≡◌, refl, String, Bool, ◌&&◌, none, some, List, [], ◌∷◌, arith, eqb, if◌then◌else◌,
}
use agentic_firewall.Dict.{Dict, lookup}
use agentic_firewall.Models.Policies.{RiskLevel, medium, value}
use agentic_firewall.Risk.{
  Word, critical_words, launch_verbs, code_objects, high_words, medium_words, low_words, words,
  is_among, meets, classify_words, classify,
}

-- How dangerous one word is; 0 for a word of no list.
unfoldable pub danger_of : Word → ℕ
danger_of w =
    if is_among w critical_words
    then 4
    else if is_among w high_words
    then 3
    else if is_among w medium_words
    then 2
    else if is_among w low_words
    then 1
    else 0

-- The most dangerous of the words.
unfoldable pub worst : List Word → ℕ
worst [] = 0
worst (w ∷ ws) = max (danger_of w) (worst ws)

-- A verb of launching beside something to launch.
abbrev pub launches : List Word → Bool
launches ws = meets ws launch_verbs && meets ws code_objects

worst_lem :
    (ws : List Word)
    → worst ws ≡ (
        if meets ws critical_words
        then 4
        else if meets ws high_words
        then 3
        else if meets ws medium_words
        then 2
        else if meets ws low_words
        then 1
        else 0)
unfolding worst danger_of meets
worst_lem [] = refl
worst_lem (w ∷ ws) = rw (worst_lem ws) (ground arith)

value-classify_words :
    (ws : List Word)
    → value (classify_words ws)
      ≡ (if launches ws then 4 else if eqb (worst ws) 0 then value medium else worst ws)
unfolding classify_words
value-classify_words ws = rw (worst_lem ws) (ground arith)

-- Without an override the risk of a name is that of its most dangerous word; a launching verb
-- beside something to launch is critical, and a name with no word of any list is medium.
pub classify-worst :
    (overrides : Dict RiskLevel) (name : String)
    → lookup name overrides ≡ none
    → value (classify overrides name) ≡ (
        if launches (words name)
        then 4
        else if eqb (worst (words name)) 0
        then value medium
        else worst (words name))
unfolding classify
classify-worst overrides name h = rw (h, classify) (value-classify_words (words name))

-- An override is the risk, whatever the words.
pub classify-override :
    (overrides : Dict RiskLevel) (name : String) {level : RiskLevel}
    → lookup name overrides ≡ some level
    → classify overrides name ≡ level
unfolding classify
classify-override overrides name h = rw (h, classify)
