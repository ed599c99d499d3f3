-- ===== src/Mcp/Client/Session.antt =====
-- `StdioMCPUpstream` of app/mcp/client.py over a session of the SDK, whose answers are parameters.
use agentic_firewall.Base.{
  ℕ, zero, suc, String, Bool, true, false, Option, none, some, List, [], ◌∷◌, ◌++◌ as ◌⧺◌, ◌==◌,
  if◌then◌else◌,
}
use agentic_firewall.Json.{Value, Fields}
use agentic_firewall.Result.{Result, ok, raise, upstream_error, ◌>>=◌}
use agentic_firewall.Models.Requests.{ToolDefinition, ToolResponse}
use agentic_firewall.Mcp.Client.{tool_to_definition, CallToolResult, result_to_response}

pub record Page : Type 0 where
  pub tools : List Fields
  pub next_cursor : Option String

unfoldable pub definitions : List Fields → Result (List ToolDefinition)
definitions [] = ok []
definitions (t ∷ ts) = do d ← tool_to_definition t; ds ← definitions ts; ok (d ∷ ds)

abbrev pub page_cap : ℕ
page_cap = 100

-- Whether a cursor asks for another page: None and "" do not.
abbrev pub more : Option String → Bool
more none = false
more (some cursor) = if cursor == "" then false else true

-- `StdioMCPUpstream`: the session of the SDK, where the upstream is started.
pub record StdioMcpUpstream (Session : Type 0) : Type 0 where
  pub session : Option Session

module _ {Session : Type 0} where
  -- `start`, where opening the connection gave a session or raised.
  unfoldable pub start :
      StdioMcpUpstream Session → Result Session → StdioMcpUpstream Session × Result {0} Unit
  start upstream (raise e) = (upstream, raise e)
  start upstream (ok s) = (record { session = some s }, ok tt)

  unfoldable pub stop : StdioMcpUpstream Session → StdioMcpUpstream Session
  stop upstream = record { session = none }

  -- `_require_session`
  unfoldable pub require_session : StdioMcpUpstream Session → Result Session
  require_session upstream = elim upstream.session [ none ↦ raise upstream_error | some s ↦ ok s ]

-- What a page leads to: `go` reads the next one, and `tools` are those read so far.
module _ {Session : Type 0}
    (go : Option String → List ToolDefinition → Session × Result (List ToolDefinition))
    (s : Session) (tools : List ToolDefinition) where
  abbrev pub add_page :
      Option String → Result (List ToolDefinition) → Session × Result (List ToolDefinition)
  add_page next (raise e) = (s, raise e)
  add_page next (ok ds) = if more next then go next (tools ⧺ ds) else (s, ok (tools ⧺ ds))

  abbrev pub on_page : Result Page → Session × Result (List ToolDefinition)
  on_page (raise e) = (s, raise e)
  on_page (ok page) = add_page page.next_cursor (definitions page.tools)

-- A session answers `list_tools` with a page for the cursor, and goes on in a new state.
module _ {Session : Type 0} (list_page : Session → Option String → Session × Result Page) where
  -- The loop of `list_tools`, while so many pages are left.
  unfoldable pub list_pages :
      ℕ → Session → Option String → List ToolDefinition → Session × Result (List ToolDefinition)
  list_pages zero s cursor tools = (s, ok tools)
  list_pages (suc n) s cursor tools =
      let (s', answer) = list_page s cursor in
      on_page (λ next ts. list_pages n s' next ts) s' tools answer

  unfoldable pub list_tools :
      StdioMcpUpstream Session → StdioMcpUpstream Session × Result (List ToolDefinition)
  list_tools upstream = elim (require_session upstream) [
    | raise e ↦ (upstream, raise e)
    | ok s ↦ let (s', r) = list_pages page_cap s none [] in (record { session = some s' }, r)
  ]

module _ {Session : Type 0}
    (call : Session → String → Fields → Session × Result (Option CallToolResult))
    (dumps : Value → String) where
  abbrev pub response_of : Result (Option CallToolResult) → Result ToolResponse
  response_of (raise e) = raise e
  response_of (ok r) = ok (result_to_response dumps r)

  unfoldable pub call_tool :
      StdioMcpUpstream Session → String → Fields → StdioMcpUpstream Session × Result ToolResponse
  call_tool upstream name arguments = elim (require_session upstream) [
    | raise e ↦ (upstream, raise e)
    | ok s ↦ let (s', r) = call s name arguments in (record { session = some s' }, response_of r)
  ]
