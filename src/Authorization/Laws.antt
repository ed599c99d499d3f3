-- ===== src/Authorization/Laws.antt =====
-- What `Authorizer.check` permits.
use agentic_firewall.Base.{◌≡◌, ◌≤◌, ◌↔◌, String, true, some, arith, contains}
use agentic_firewall.Dict.{Dict, lookup}
use agentic_firewall.Models.Policies.{RiskLevel, RolePolicy, value}
use agentic_firewall.Authorization.{check}

-- The role has a policy that names the tool, and the tool's risk is within the role's limit.
abbrev pub Permits : Dict RolePolicy → String → String → RiskLevel → Type 0
Permits roles role tool risk =
    (p : RolePolicy) × (lookup role roles ≡ some p)
    × (contains tool p.allowed_tools ≡ true)
    × (value risk ≤ value p.max_risk)

-- A tool is allowed exactly to the roles whose policy names it, up to the role's risk limit: an
-- unknown role, an unlisted tool and a risk above the limit are each refused.
pub check-Permits :
    (roles : Dict RolePolicy) (role tool : String) (risk : RiskLevel)
    → ((check roles role tool risk).allowed ≡ true) ↔ Permits roles role tool risk
unfolding check
check-Permits roles role tool risk = (λ h. ground arith, λ h. ground arith)

-- What is allowed at a risk is allowed at every lower one.
pub check_mono :
    (roles : Dict RolePolicy) (role tool : String) (lower risk : RiskLevel)
    → value lower ≤ value risk
    → (check roles role tool risk).allowed ≡ true
    → (check roles role tool lower).allowed ≡ true
unfolding check
check_mono roles role tool lower risk h e = ground arith
