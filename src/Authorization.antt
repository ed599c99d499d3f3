-- ===== src/Authorization.antt =====
-- app/firewall/authorization.py
pub mod Laws
mod Tests
use Prim.Native.String.{◌++◌}
use agentic_firewall.Base.{String, Bool, true, false, none, some, ltb, contains, if◌then◌else◌}
use agentic_firewall.Dict.{Dict, lookup}
use agentic_firewall.Models.Policies.{RiskLevel, RolePolicy, value, risk_name}

pub record AuthzDecision : Type 0 where
  pub allowed : Bool
  pub reason : String

-- The checks of `check` behind the lookup of the role.
unfoldable pub check_role : RolePolicy → String → String → RiskLevel → AuthzDecision
check_role p role tool risk =
    if contains tool p.allowed_tools
    then (if ltb (value p.max_risk) (value risk)
        then record {
          allowed = false;
          reason =
              "tool risk "
              ++ risk_name risk
              ++ " exceeds role '"
              ++ role
              ++ "' limit "
              ++ risk_name p.max_risk;
        }
        else record { allowed = true; reason = "permitted" })
    else record {
      allowed = false;
      reason = "role '" ++ role ++ "' is not permitted to use tool '" ++ tool ++ "'";
    }

-- `Authorizer.check`; an authorizer is its roles.
unfoldable pub check : Dict RolePolicy → String → String → RiskLevel → AuthzDecision
unfolding check_role
check roles role tool risk = elim (lookup role roles) [
  | none ↦ record { allowed = false; reason = "unknown role '" ++ role ++ "'" }
  | some p ↦ check_role p role tool risk
]

-- `Authorizer.can_manage`
unfoldable pub can_manage : Dict RolePolicy → String → Bool
can_manage roles role = elim (lookup role roles) [ none ↦ false | some p ↦ p.can_manage ]
