-- ===== src/Models/Events/LogLine.antt =====
-- `SecurityEvent.to_log_line` of app/models/events.py, the line that `AuditLog.record` of
-- app/firewall/audit.py writes to the logger.
use Prim.Native.String.{◌++◌}
use text.Mathlib.TextLemmas.{nil-append, cons-append, append_assoc}
use agentic_firewall.Base.{
  ℕ, ◌≡◌, refl, ◌∙◌, ap, sym, inl, inr, Bool-cases, String, Bool, true, ◌&&◌, Option, none, some,
  List, [], ◌∷◌, arith, ◌==◌, all_codes, All, if◌then◌else◌,
}
use agentic_firewall.Models.Events.{
  Decision, allow, deny, decision_value, SecurityEvent, clean_option, clean_event,
}
use agentic_firewall.Models.Events.Sanitize.{sanitize}
use agentic_firewall.Models.Events.Plain.{is_plain, sanitize_lem}

-- value or '-'
abbrev pub or_dash : Option String → String
or_dash none = "-"
or_dash (some s) = if s == "" then "-" else s

-- The pieces of the f-string, one behind the other.
unfoldable pub concat : List String → String
concat [] = ""
concat (s ∷ ss) = s ++ concat ss

-- `when` is the text of the time by `strftime`, `fixed` that of the latency by `{:.2f}`.
module _ (when fixed : ℕ → String) where
  abbrev pub pieces : SecurityEvent → List String
  pieces e =
      when e.ts
      ∷ " user="
      ∷ or_dash e.user_id
      ∷ " role="
      ∷ or_dash e.role
      ∷ " tool="
      ∷ or_dash e.tool
      ∷ " risk="
      ∷ or_dash e.risk
      ∷ " decision="
      ∷ decision_value e.decision
      ∷ " stage="
      ∷ e.stage
      ∷ " reason=\""
      ∷ e.reason
      ∷ "\" latency_ms="
      ∷ fixed e.latency_ms
      ∷ []

  unfoldable pub to_log_line : SecurityEvent → String
  to_log_line e = concat (pieces e)

abbrev Plain : String → Type 0
Plain s = all_codes is_plain s ≡ true

all_codes-append :
    (p : ℕ → Bool) (s t : String) → all_codes p (s ++ t) ≡ (all_codes p s && all_codes p t)
unfolding all_codes
all_codes-append p String.[] t = ap (all_codes p) (nil-append t)
all_codes-append p (String.◌∷◌ c s) t =
    ap (all_codes p) (cons-append c s t) ∙ ground (arith, all_codes-append p s t)

concat-Plain : (ss : List String) → All Plain ss → Plain (concat ss)
unfolding concat all_codes
concat-Plain [] h = refl
concat-Plain (s ∷ ss) (h, hs) =
    all_codes-append is_plain s (concat ss) ∙ ground (arith, h, concat-Plain ss hs)

or_dash-Plain : (o : Option String) → Plain (or_dash (clean_option o))
unfolding all_codes
or_dash-Plain none = refl
or_dash-Plain (some s) = elim (Bool-cases (sanitize 300 s == "")) [
  | inl e ↦ rw e refl
  | inr e ↦ rw e (sanitize_lem 300 s (omega arith)).0
]

decision-Plain : (d : Decision) → Plain (decision_value d)
unfolding all_codes
decision-Plain allow = refl
decision-Plain deny = refl

-- The line of an event that was made, and so cleaned: where the texts of the time and of the latency
-- hold no control character, no line or paragraph separator, no LEFT-TO-RIGHT or RIGHT-TO-LEFT MARK, no
-- directional embedding, override or isolate, and no zero-width space, joiner or non-joiner, neither
-- does the line, whatever the texts of the event were.
pub to_log_line_lem :
    (when fixed : ℕ → String) (e : SecurityEvent)
    → all_codes is_plain (when e.ts) ≡ true
    → all_codes is_plain (fixed e.latency_ms) ≡ true
    → all_codes is_plain (to_log_line when fixed (clean_event e)) ≡ true
unfolding to_log_line clean_event all_codes
to_log_line_lem when fixed e time latency = concat-Plain (pieces when fixed (clean_event e)) (
  time,
  (
    refl,
    (
      or_dash-Plain e.user_id,
      (
        refl,
        (
          or_dash-Plain e.role,
          (
            refl,
            (
              or_dash-Plain e.tool,
              (
                refl,
                (
                  or_dash-Plain e.risk,
                  (
                    refl,
                    (
                      decision-Plain e.decision,
                      (
                        refl,
                        (
                          (sanitize_lem 300 e.stage (omega arith)).0,
                          (
                            refl,
                            ((sanitize_lem 300 e.reason (omega arith)).0, (refl, (latency, tt))),
                          ),
                        ),
                      ),
                    ),
                  ),
                ),
              ),
            ),
          ),
        ),
      ),
    ),
  ),
)

glue : (a b c r : String) → a ++ (b ++ (c ++ r)) ≡ ((a ++ b) ++ c) ++ r
glue a b c r = sym (append_assoc (a ++ b) c r ∙ append_assoc a b (c ++ r))

-- Two events whose fields differ and whose lines are the same: a space in a user's id is kept, so what
-- follows it reads as another field.
pub to_log_line-forged :
    (when fixed : ℕ → String) (e : SecurityEvent)
    → to_log_line when fixed (record e { user_id = some "a"; role = some "b role=-" })
      ≡ to_log_line when fixed (record e { user_id = some "a role=b"; role = none })
unfolding to_log_line concat
to_log_line-forged when fixed e =
    ap (λ t. when e.ts ++ (" user=" ++ t))
      (glue "a" " role=" "b role=-" _ ∙ sym (glue "a role=b" " role=" "-" _))
