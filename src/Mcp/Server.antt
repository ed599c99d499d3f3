-- ===== src/Mcp/Server.antt =====
-- `DemoToolServer` of app/mcp/server.py, and `InProcessUpstream` of app/mcp/client.py, which hands
-- each call on to it. A handler is what `str(handler(**arguments))` comes to: a text, or `none`
-- where it raises. The copies of definitions and arguments are values here.
pub mod Demo
pub mod Firewall
mod Tests
use agentic_firewall.Base.{
  ℕ, suc, String, Option, none, some, List, [], ◌∷◌, ◌++◌, map, false, true, ◌==◌, if◌then◌else◌,
}
use agentic_firewall.Dict.{Dict, lookup, insert}
use agentic_firewall.Json.{Fields}
use agentic_firewall.Models.Requests.{ToolDefinition, ToolResponse}

abbrev pub Handler : Type 0
Handler = Fields → Option String

pub record DemoToolServer : Type 0 where
  pub tools : Dict ToolDefinition
  pub handlers : Dict Handler
  pub call_log : List (String × Fields)

abbrev pub empty_server : DemoToolServer
empty_server = record { tools = []; handlers = []; call_log = [] }

unfoldable pub register : DemoToolServer → ToolDefinition → Handler → DemoToolServer
register server defn handler = record server {
  tools = insert defn.name defn server.tools;
  handlers = insert defn.name handler server.handlers;
}

-- `mutate`, where `changes` is what `model_copy` makes of a definition; `none` is the `KeyError`.
unfoldable pub mutate :
    DemoToolServer → String → (ToolDefinition → ToolDefinition) → Option DemoToolServer
mutate server name changes = elim (lookup name server.tools) [
  | none ↦ none
  | some defn ↦ some (record server { tools = insert name (changes defn) server.tools })
]

unfoldable pub set_handler : DemoToolServer → String → Handler → DemoToolServer
set_handler server name handler = record server { handlers = insert name handler server.handlers }

abbrev pub count_calls : String → List (String × Fields) → ℕ
count_calls name [] = 0
count_calls name ((n, arguments) ∷ log) =
    let rest = count_calls name log in if n == name then suc rest else rest

unfoldable pub calls_to : DemoToolServer → String → ℕ
calls_to server name = count_calls name server.call_log

abbrev pub values : Dict ToolDefinition → List ToolDefinition
values [] = []
values ((name, defn) ∷ rest) = defn ∷ values rest

unfoldable pub list_tools : DemoToolServer → List ToolDefinition
list_tools server = values server.tools

abbrev pub answer : Option String → ToolResponse
answer none = record { text = "error: tool execution failed"; is_error = true }
answer (some text) = record { text = text; is_error = false }

unfoldable pub call_tool : DemoToolServer → String → Fields → DemoToolServer × ToolResponse
call_tool server name arguments = (
  record server { call_log = server.call_log ++ (name, arguments) ∷ [] },
  elim (lookup name server.handlers) [
    | none ↦ record { text = "error: unknown tool"; is_error = true }
    | some handler ↦ answer (handler arguments)
  ],
)
