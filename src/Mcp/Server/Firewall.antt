-- ===== src/Mcp/Server/Firewall.antt =====
-- `Firewall.handle` of app/firewall/gateway.py in front of the demonstration server, which answers at
-- once: what reaches the server's log of calls.
use agentic_firewall.Base.{
  ◌≡◌, ◌≢◌, ◌⊎◌, inl, inr, refl, ◌∙◌, ap, sym, subst, String, true, Option, some, List, [], ◌∷◌,
  ◌++◌, arith, keep, ◌==◌, eq_refl,
}
use agentic_firewall.Dict.{Dict, lookup, insert}
use agentic_firewall.Platform.{Platform}
use agentic_firewall.Result.{Result, ok}
use agentic_firewall.Models.Requests.{ToolRequest, ToolDefinition, GatewayResult}
use agentic_firewall.Integrity.{approved_fingerprint, fingerprint}
use agentic_firewall.Gateway.{Firewall}
use agentic_firewall.Gateway.Pipeline.{listed, replied, Outcome, calls_tool}
use agentic_firewall.Gateway.Handle.{Exchange, before_call, handle}
use agentic_firewall.Gateway.Allowed.{Cleared, before_call-Cleared}
use agentic_firewall.Mcp.Server.{DemoToolServer, mutate, values, list_tools, call_tool}

module _ (platform : Platform) (req : ToolRequest) where
  -- `InProcessUpstream`: the answers are the server's.
  abbrev pub in_process : DemoToolServer → Exchange → Exchange
  in_process server x = record x {
    listing = listed (list_tools server);
    reply = replied (call_tool server req.tool req.arguments).1;
  }

  -- The server behind a pipeline that did or did not come to the call.
  abbrev pub behind : Outcome → DemoToolServer → DemoToolServer
  behind calls_tool server = (call_tool server req.tool req.arguments).0
  behind outcome server = server

  unfoldable pub serve :
      Firewall → Exchange → DemoToolServer → Firewall × Option GatewayResult × DemoToolServer
  serve fw x server =
      let x' = in_process server x in
      let (fw', result) = handle platform x' req fw in
      (fw', result, behind (before_call platform x' req fw).2 server)

  -- Either nothing reaches the server, or the one call that the request asks for, and then the
  -- caller was entitled to the tool and the tool was vetted.
  behind-Cleared :
      (fw : Firewall) (x : Exchange) (server : DemoToolServer) (o : Outcome)
      → (before_call platform x req fw).2 ≡ o
      → ((behind o server).call_log ≡ server.call_log)
        ⊎ (((behind o server).call_log ≡ server.call_log ++ (req.tool, req.arguments) ∷ [])
            × Cleared platform x req fw)
  unfolding call_tool
  behind-Cleared fw x server calls_tool e =
      let t = before_call platform x req fw in
      inr (refl, before_call-Cleared platform x req fw t.0 t.1 (ap (λ o. (t.0, t.1, o)) e))
  behind-Cleared fw x server o e = inl refl

  -- What a request does to the log of the server: nothing, or it adds the one call that it asks for,
  -- and then the caller was entitled to the tool, and the tool, as the server lists it, was vetted.
  pub serve-call_log :
      (fw : Firewall) (x : Exchange) (server : DemoToolServer)
      → let served = (serve fw x server).2 in
        (served.call_log ≡ server.call_log)
        ⊎ ((served.call_log ≡ server.call_log ++ (req.tool, req.arguments) ∷ [])
            × Cleared platform (in_process server x) req fw)
  unfolding serve
  serve-call_log fw x server = behind-Cleared fw (in_process server x) server _ refl

  keeps : List ToolDefinition → List ToolDefinition
  keeps ds = keep (λ d. d.name == req.tool) ds

  kept_some :
      (k : String) (d : ToolDefinition) (m : Dict ToolDefinition)
      → (d.name == req.tool) ≡ true
      → keeps (values (insert k d m)) ≢ []
  unfolding insert keeps
  kept_some k d [] h = ground arith
  kept_some k d ((j, v) ∷ m) h = ground (arith, kept_some k d m h)

  kept_one :
      (k : String) (d e : ToolDefinition) (m : Dict ToolDefinition)
      → (d.name == req.tool) ≡ true
      → keeps (values (insert k d m)) ≡ e ∷ []
      → d ≡ e
  unfolding insert keeps
  kept_one k d e [] h q = ground arith
  kept_one k d e ((j, v) ∷ m) h q = ground (arith, kept_one k d e m h, kept_some k d m h)

  -- The one definition of the tool's name that is pinned, after a definition was written.
  written_pinned :
      (k : String) (d : ToolDefinition) (server : DemoToolServer) (x : Exchange) (fw : Firewall)
      → d.name ≡ req.tool
      → Cleared platform (in_process (record server { tools = insert k d server.tools }) x) req fw
      → approved_fingerprint fw.db req.tool ≡ ok (some (fingerprint platform d))
  unfolding list_tools keeps
  written_pinned k d server x fw same c =
      let v = c.vetted in
      let listed_same : values (insert k d server.tools) ≡ v.tools = ground (arith, v.answered) in
      let one : d ≡ v.defn =
        kept_one k d v.defn server.tools
          (subst (λ n. (n == req.tool) ≡ true) (sym same) (eq_refl req.tool))
          (ap (λ ts. keep (λ e. e.name == req.tool) ts) listed_same ∙ v.unique) in
      subst (λ n. approved_fingerprint fw.db n ≡ ok (some (fingerprint platform d))) same
        (subst (λ e. approved_fingerprint fw.db e.name ≡ ok (some (fingerprint platform e)))
          (sym one) v.pinned)

  mutate_known :
      (server server' : DemoToolServer) (name : String) (d : ToolDefinition)
      (changes : ToolDefinition → ToolDefinition)
      → lookup name server.tools ≡ some d
      → mutate server name changes ≡ some server'
      → server' ≡ record server { tools = insert name (changes d) server.tools }
  unfolding mutate
  mutate_known server server' name d changes known h = ground arith

ok_some_inj : {a b : String} → ◌≡◌ {A = Result (Option String)} (ok (some a)) (ok (some b)) → a ≡ b
ok_some_inj h = cc

-- A rug pull: the server changes the definition of a tool whose fingerprint was approved, under the
-- same name, so that the fingerprint is another. No request for the tool reaches the server.
pub serve-mutate :
    (platform : Platform) (req : ToolRequest) (fw : Firewall) (x : Exchange)
    (server server' : DemoToolServer) (d : ToolDefinition)
    (changes : ToolDefinition → ToolDefinition)
    → lookup req.tool server.tools ≡ some d
    → mutate server req.tool changes ≡ some server'
    → approved_fingerprint fw.db req.tool ≡ ok (some (fingerprint platform d))
    → (changes d).name ≡ req.tool
    → fingerprint platform (changes d) ≢ fingerprint platform d
    → (serve platform req fw x server').2.call_log ≡ server'.call_log
serve-mutate platform req fw x server server' d changes known h pinned same other =
    elim (serve-call_log platform req fw x server') [
      | inl untouched ↦ untouched
      | inr (grown, cleared) ↦
          let after = mutate_known platform req server server' req.tool d changes known h in
          let now_pinned =
            written_pinned platform req req.tool (changes d) server x fw same
              (subst (λ s. Cleared platform (in_process platform req s x) req fw) after cleared) in
          absurd (other (ok_some_inj (sym now_pinned ∙ pinned)))
    ]
