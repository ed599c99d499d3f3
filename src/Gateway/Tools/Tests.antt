-- ===== src/Gateway/Tools/Tests.antt =====
-- The list that a developer gets: the approved tool, and not the unknown one.
use agentic_firewall.Base.{◌≡◌, ◌⊎◌, refl, true, List, [], ◌∷◌, All}
use agentic_firewall.Json.{no_fields}
use agentic_firewall.Result.{ok}
use agentic_firewall.Models.Requests.{ToolDefinition, ToolInfo, UserSession}
use agentic_firewall.Authentication.{validate}
use agentic_firewall.Authorization
use agentic_firewall.RateLimiter
use agentic_firewall.Samples.{plain, policy, list_files, filled}
use agentic_firewall.Gateway.{Firewall, Instant, init}
use agentic_firewall.Gateway.Pipeline.{listed}
use agentic_firewall.Gateway.Tools.{list_tools}
use agentic_firewall.Gateway.Tools.Catalogue.{Visible, list_tools-Visible}

abbrev at_ten : Instant
at_ten = record { wall = 10; mono = 10; again = 10; once_more = 10 }

abbrev both : List ToolDefinition
both = record list_files { name = "list_secrets" } ∷ list_files ∷ []

abbrev fw0 : Firewall
fw0 = init policy filled

abbrev infos : List ToolInfo
infos =
    record {
      name = "list_files";
      description = "Lists files.";
      input_schema = no_fields;
      risk = "LOW";
      integrity = "ok";
    }
    ∷ []

list_run : (list_tools plain fw0 at_ten "s1" (listed both)).1 ≡ ok infos
unfolding list_tools agentic_firewall.Gateway.Tools.authenticate
    agentic_firewall.Authentication.validate agentic_firewall.Authentication.check_row
    agentic_firewall.Base.text_length agentic_firewall.Base.text_take
    agentic_firewall.Database.get_session agentic_firewall.Database.join
    agentic_firewall.Database.get_fingerprint agentic_firewall.Dict.lookup
    agentic_firewall.Dict.insert init RateLimiter.check RateLimiter.swept RateLimiter.admit
    RateLimiter.hits_of RateLimiter.drop_expired agentic_firewall.Gateway.Tools.list_infos
    agentic_firewall.Gateway.Tools.shown_tool agentic_firewall.Integrity.verify
    agentic_firewall.Integrity.fingerprint agentic_firewall.Integrity.approved_fingerprint
    Authorization.can_manage Authorization.check Authorization.check_role
    agentic_firewall.Risk.classify agentic_firewall.Risk.classify_words agentic_firewall.Risk.words
    agentic_firewall.Risk.is_among agentic_firewall.Risk.meets agentic_firewall.Risk.same_word
    agentic_firewall.Risk.split_words agentic_firewall.Risk.mark_camel agentic_firewall.Base.codes
list_run = refl

list_tools-Visible_example :
    (u : UserSession) × (validate plain.sha256 fw0.db "s1" 10 ≡ ok u)
    × ((RateLimiter.check fw0.limiter u.user_id 10).1.allowed ≡ true)
    × ((Authorization.can_manage fw0.policy.roles u.role ≡ true)
        ⊎ All (Visible plain fw0 u.role both) infos)
list_tools-Visible_example = list_tools-Visible plain fw0 at_ten "s1" both infos list_run
