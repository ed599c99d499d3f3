-- ===== src/Authorization/Tests.antt =====
-- The authorizer's theorems on one role.
use agentic_firewall.Base.{◌≡◌, ◌↔◌, refl, true, false, [], ◌∷◌, arith}
use agentic_firewall.Dict.{Dict}
use agentic_firewall.Models.Policies.{RolePolicy, low, medium, high}
use agentic_firewall.Authorization.{check}
use agentic_firewall.Authorization.Laws.{Permits, check-Permits, check_mono}

abbrev roles : Dict RolePolicy
roles =
    ("dev", record { allowed_tools = "write_note" ∷ []; max_risk = medium; can_manage = false })
    ∷ []

check-Permits_example :
    ((check roles "dev" "write_note" high).allowed ≡ true) ↔ Permits roles "dev" "write_note" high
check-Permits_example = check-Permits roles "dev" "write_note" high

check_mono_run : (check roles "dev" "write_note" low).allowed ≡ true
unfolding check agentic_firewall.Dict.lookup
check_mono_run = check_mono roles "dev" "write_note" low medium (omega arith) refl
