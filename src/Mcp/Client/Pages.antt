-- ===== src/Mcp/Client/Pages.antt =====
-- The pages that `list_tools` of app/mcp/client.py reads.
use agentic_firewall.Base.{
  ℕ, zero, suc, ◌+◌, ◌≤◌, ◌≡◌, refl, String, true, false, Option, none, some, List, [], ◌++◌, arith,
}
use agentic_firewall.Result.{Result, ok, raise}
use agentic_firewall.Models.Requests.{ToolDefinition}
use agentic_firewall.Mcp.Client.Session.{
  Page, definitions, more, page_cap, add_page, on_page, list_pages, require_session, list_tools,
}

module _ {Session : Type 0} (list_page : Session → Option String → Session × Result Page) where
  -- A server that has exactly so many pages behind a cursor, with the tools that they list.
  pub data Lists : ℕ → Session → Option String → List ToolDefinition → Session → Type 0 where
    last :
        (s s' : Session) (cursor : Option String) (page : Page) (ds : List ToolDefinition)
        → list_page s cursor ≡ (s', ok page)
        → definitions page.tools ≡ ok ds
        → more page.next_cursor ≡ false
        → Lists 1 s cursor ds s'
    page_and_more :
        (n : ℕ) (s s' end : Session) (cursor : Option String) (page : Page)
        (ds rest : List ToolDefinition)
        → list_page s cursor ≡ (s', ok page)
        → definitions page.tools ≡ ok ds
        → more page.next_cursor ≡ true
        → Lists n s' page.next_cursor rest end
        → Lists (suc n) s cursor (ds ++ rest) end

  -- A session that counts the calls made of it.
  abbrev pub counting : ℕ × Session → Option String → (ℕ × Session) × Result Page
  counting (n, s) cursor = let (s', r) = list_page s cursor in ((suc n, s'), r)

  on_page-counting :
      (n k : ℕ) (s : ℕ × Session) (tools : List ToolDefinition) (r : Result Page)
      (go : Option String → List ToolDefinition → (ℕ × Session) × Result (List ToolDefinition))
      → s.0 ≤ k + n
      → ((c : Option String) (ts : List ToolDefinition) → (go c ts).0.0 ≤ k + n)
      → (on_page go s tools r).0.0 ≤ k + n
  on_page-counting n k s tools (raise e) go h rest = h
  on_page-counting n k s tools (ok page) go h rest = go_on (definitions page.tools) page.next_cursor
    where
      go_on :
          (ds : Result (List ToolDefinition)) (c : Option String)
          → (add_page go s tools c ds).0.0 ≤ k + n
      go_on (raise e) c = h
      go_on (ok ds) c = ground (arith, rest c (tools ++ ds))

  list_pages-counting :
      (n k : ℕ) (s : Session) (cursor : Option String) (tools : List ToolDefinition)
      → (list_pages counting n (k, s) cursor tools).0.0 ≤ k + n
  unfolding list_pages
  list_pages-counting zero k s cursor tools = omega arith
  list_pages-counting (suc n) k s cursor tools =
      let t = list_page s cursor in
      let below =
        on_page-counting n (suc k) (suc k, t.0) tools t.1
          (λ c ts. list_pages counting n (suc k, t.0) c ts) (omega arith)
          (λ c ts. list_pages-counting n (suc k) t.0 c ts) in
      omega (arith, below)

-- Whatever the server answers, also where each page names another: `list_tools` leaves a started
-- upstream with its session, of which it has asked for at most 100 pages.
pub list_tools-counting :
    {Session : Type 0} (list_page : Session → Option String → Session × Result Page) (s : Session)
    → (n : ℕ) × (end : Session) × ((list_tools
          (counting list_page)
          (record { session = some (0, s) })).0
        ≡ record { session = some (n, end) })
      × (n ≤ 100)
unfolding list_tools require_session
list_tools-counting list_page s =
    let t = (list_pages (counting list_page) page_cap (0, s) none []).0 in
    (t.0, t.1, refl, list_pages-counting list_page page_cap 0 s none [])
