-- ===== src/Models/Policies/RiskText.antt =====
-- The texts of risk levels in app/models/policies.py: `RiskLevel.parse`, the validators that call it
-- and the serializers. `normal` is what `value.strip().upper()` gives.
use agentic_firewall.Base.{◌≡◌, refl, ap, String, Option, none, some, [], ◌∷◌, ◌==◌, if◌then◌else◌}
use agentic_firewall.Dict.{Dict}
use agentic_firewall.Models.Policies.{RiskLevel, low, medium, high, critical, risk_name}

-- A value that may stand for a level.
pub data RawRisk : Type 0 where
  level : RiskLevel → RawRisk
  text : String → RawRisk
  other : RawRisk

-- cls[name]; `none` is the `KeyError`.
unfoldable pub level_named : String → Option RiskLevel
level_named name =
    if name == "LOW"
    then some low
    else if name == "MEDIUM"
    then some medium
    else if name == "HIGH"
    then some high
    else if name == "CRITICAL"
    then some critical
    else none

module _ (normal : String → String) where
  -- `RiskLevel.parse`; `none` is the `ValueError`.
  unfoldable pub parse : RawRisk → Option RiskLevel
  parse (level r) = some r
  parse (text s) = level_named (normal s)
  parse other = none

  abbrev pub add_level :
      String → Option RiskLevel → Option (Dict RiskLevel) → Option (Dict RiskLevel)
  add_level name none rest = none
  add_level name (some r) none = none
  add_level name (some r) (some levels) = some ((name, r) ∷ levels)

  -- `_parse_tool_risk` of a dict, whose keys are distinct.
  unfoldable pub parse_tool_risk : Dict RawRisk → Option (Dict RiskLevel)
  parse_tool_risk [] = some []
  parse_tool_risk ((name, raw) ∷ rest) = add_level name (parse raw) (parse_tool_risk rest)

  -- `_ser_tool_risk`, read back as the texts of a policy file.
  unfoldable pub ser_tool_risk : Dict RiskLevel → Dict RawRisk
  ser_tool_risk [] = []
  ser_tool_risk ((name, r) ∷ rest) = (name, text (risk_name r)) ∷ ser_tool_risk rest

  parse-risk_name :
      (r : RiskLevel) → normal (risk_name r) ≡ risk_name r → parse (text (risk_name r)) ≡ some r
  unfolding parse level_named
  parse-risk_name low h = ap level_named h
  parse-risk_name medium h = ap level_named h
  parse-risk_name high h = ap level_named h
  parse-risk_name critical h = ap level_named h

  -- Where stripping and upper-casing leave the levels' names alone, the table of risks that a policy
  -- shows is read back as it was.
  pub parse_tool_risk-ser_tool_risk :
      (levels : Dict RiskLevel)
      → ((r : RiskLevel) → normal (risk_name r) ≡ risk_name r)
      → parse_tool_risk (ser_tool_risk levels) ≡ some levels
  unfolding parse_tool_risk ser_tool_risk
  parse_tool_risk-ser_tool_risk [] h = refl
  parse_tool_risk-ser_tool_risk ((name, r) ∷ rest) h =
      rw (parse-risk_name r (h r), parse_tool_risk-ser_tool_risk rest h) refl
