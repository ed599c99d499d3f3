-- ===== src/Mcp/Client/Tests.antt =====
-- Runs of the functions of app/mcp/client.py, and the theorems on them.
use agentic_firewall.Base.{ℕ, suc, ◌≤◌, ◌≡◌, ◌≢◌, refl, String, false, Option, none, some, [], ◌∷◌}
use agentic_firewall.Json.{object, text, Fields, no_fields, field}
use agentic_firewall.Result.{Result, ok}
use agentic_firewall.Models.Requests.{ToolDefinition}
use agentic_firewall.Mcp.Client.{
  snake, tool_to_definition, text_block, resource_block, other_block, result_to_response,
}
use agentic_firewall.Mcp.Client.Session.{Page, list_pages, list_tools}
use agentic_firewall.Mcp.Client.Snake.{last_field}
use agentic_firewall.Mcp.Client.Shadowing.{tool_to_definition-shadowed}
use agentic_firewall.Mcp.Client.Pages.{counting, list_tools-counting}

snake_run : snake "inputSchemaV2Url" ≡ "input_schema_v2_url"
unfolding snake agentic_firewall.Mcp.Client.snake_after
snake_run = refl

result_to_response_run :
    result_to_response
      (λ v. "{}")
      (some (record {
        content = text_block "a" ∷ resource_block none ∷ other_block "image" ∷ [];
        is_error = false;
        structured = none;
      }))
    ≡ record {
      text = "a\n[binary resource omitted by firewall]\n[image content omitted by firewall]";
      is_error = false;
    }
unfolding result_to_response agentic_firewall.Mcp.Client.join_lines agentic_firewall.Mcp.Client.part
result_to_response_run = refl

abbrev dump : Fields
dump =
    field "name" (text "add")
      (field "inputSchema" (object no_fields) (field "outputSchema" (text "o") no_fields))

abbrev add : ToolDefinition
add = record {
  name = "add";
  description = "";
  input_schema = no_fields;
  annotations = no_fields;
  extras = field "output_schema" (text "o") no_fields;
}

later_field :
    last_field (snake "inputSchema") none (field "input_schema" (text "") no_fields) ≢ none
unfolding snake agentic_firewall.Mcp.Client.snake_after
later_field = λ e. cc

tool_to_definition-shadowed_example :
    tool_to_definition (
      field "name"
        (text "add")
        (field "inputSchema" (text "a") (field "input_schema" (text "") no_fields)))
    ≡ tool_to_definition (
        field "name"
          (text "add")
          (field "inputSchema" (text "b") (field "input_schema" (text "") no_fields)))
tool_to_definition-shadowed_example =
    tool_to_definition-shadowed (field "name" (text "add") no_fields)
      (field "input_schema" (text "") no_fields) "inputSchema" (text "a") (text "b") later_field

-- A server with two pages of the one tool, and one that always names another page.
abbrev two_pages : ℕ → Option String → ℕ × Result Page
two_pages s none = (suc s, ok (record { tools = dump ∷ []; next_cursor = some "p2" }))
two_pages s (some c) = (suc s, ok (record { tools = dump ∷ []; next_cursor = none }))

abbrev endless : ℕ → Option String → ℕ × Result Page
endless s cursor = (s, ok (record { tools = []; next_cursor = some "again" }))

list_tools-counting_example :
    (n : ℕ) × (end : ℕ) × ((list_tools (counting endless) (record { session = some (0, 5) })).0
      ≡ record { session = some (n, end) })
    × (n ≤ 100)
list_tools-counting_example = list_tools-counting endless 5
