-- ===== src/Mcp/Client/Snake.antt =====
-- What `tool_to_definition` of app/mcp/client.py keeps of a tool.
use agentic_firewall.Base.{
  ◌≡◌, ◌≢◌, ◌∙◌, sym, subst, false≢true, eq_refl, String, true, false, Option, some, ◌==◌,
  if◌then◌else◌,
}
use agentic_firewall.Json.{Value, Fields, no_fields, field}
use agentic_firewall.Result.{Result}
use agentic_firewall.Models.Requests.{ToolDefinition}
use agentic_firewall.Mcp.Client.{snake, snake_keys}

-- The last field that has the key `key` in snake case, or `old` where none has.
abbrev pub last_field : String → Option Value → Fields → Option Value
last_field key old no_fields = old
last_field key old (field name value rest) =
    last_field key (if snake name == key then some value else old) rest

pub apart : (s t : String) → (s == t) ≡ false → s ≢ t
apart s t e h = false≢true (sym e ∙ subst (λ u. (s == u) ≡ true) h (eq_refl s))

abbrev built : String → String → Fields → Fields → Fields → ToolDefinition
built name description input_schema annotations extras = record {
  name = name;
  description = description;
  input_schema = input_schema;
  annotations = snake_keys annotations;
  extras = extras;
}
