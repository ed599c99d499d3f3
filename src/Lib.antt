-- ===== src/Lib.antt =====
-- The agentic firewall: a gateway that stands between agents and the tools of an MCP server. Each
-- call of a tool passes authentication, a rate limit, a check of the tool's name, a risk class, the
-- role's rights, the pinned fingerprint of the tool's definition, a scan of the arguments, the
-- tool's circuit breaker, the call itself and a scan of the response, and leaves a row in the log.
--
-- Which file models which part:
--   RateLimiter     app/firewall/rate_limiter.py: the deques by key, `check`, the sweep. Refinement
--                   has their specification, a log of granted requests; Bound and Retry use it.
--   CircuitBreaker  app/firewall/circuit_breaker.py: the breaker's states, the registry. Probe is a
--                   step relation over the calls that are in flight; Cycle and Records are about
--                   one breaker.
--   Models          app/models/policies.py (Policies, with RiskText), events.py (Events, with Sanitize,
--                   LogLine and Plain, the characters that a cleaned text does not hold) and
--                   requests.py (Requests).
--   Database        app/storage/database.py: the four tables and the statements on them.
--   Authentication  app/firewall/authentication.py: users, login, sessions.
--   Authorization   app/firewall/authorization.py: the right of a role to a tool.
--   Risk            app/firewall/risk.py: the words of a tool's name and its risk.
--   Scanner         app/firewall/scanner.py: the table of rules (Rules), the walk over a value with
--                   its budget and depth (Walk); Clean, Sound and Exact are about what passes.
--   Integrity       app/firewall/integrity.py: fingerprints and their approval.
--   Audit           app/firewall/audit.py: the writer and the reader of the log.
--   Gateway         app/firewall/gateway.py: the firewall's state; Pipeline and Handle are `handle`
--                   and `_pipeline`. Mediation, Allowed, Complete, Frame, Responses, Auditing and Settling
--                   are about its results, the log and the breakers, and Writes about the writes to
--                   the database. Login is `login`, Tools is `list_tools`
--                   with `authenticate` and `require_manager`, Approve is `approve_tools`,
--                   with its parts that touch no state in Wanted. Tasks is a step relation of many
--                   requests that take turns at their waits; its children Breakers, Limits,
--                   History and Trail are about each tool's breaker, the rate limit, what lies behind
--                   a call, and the log and the revoked sessions, and Alone about one request whose
--                   turns nothing comes between.
--   Api             app/main.py: the routes with their statuses (Routes) and `create-user`. Mediation,
--                   Managers and Accounts are about the answers.
--   Mcp             app/mcp/client.py (Client: tools, results, the session and its pages) and
--                   app/mcp/server.py (Server: the demonstration server, its tools in Demo). Snake,
--                   Shadowing and Pages are about the client, Server/Firewall about the firewall
--                   before the server.
--   Base, Dict, Json, Result, Platform, Samples   lists, tests and texts; dictionaries; Python's JSON
--                   values; exceptions as values; what the program takes from outside; data for runs.
--
-- Correspondence. A method that changes its object is a function from the old state to the new one.
-- An exception is a `raise` of `Result`. The clock's readings are arguments. A time and a duration
-- are whole numbers of clock ticks, and a comparison of a difference is written with a sum, since ℕ
-- has no negative numbers. The locks make each call of the limiter, a breaker and the database one
-- step. `handle` takes one request from its start to its end: what the upstream answers at the two
-- places where it waits is the argument `Exchange`, together with the clocks there. The pieces
-- between the waits are functions of their own. `handle` hands the state from one to the next; in
-- Tasks other requests and calls come between them, in any order, as on the program's event loop.
-- There the listing and the approvals of a tool's definition are one step, taken when the listing is
-- there, and a listing of the tools for a caller is the check of its session, which is all it writes.
--
-- Bounds and fuel. Only the decimal digits of a number run on fuel, one more than the number, which
-- has fewer digits than that. All other loops are recursions on lists, texts and values.
--
-- Not modelled: of app/main.py the web framework, the JSON forms of the bodies, the start of the app
-- and the parsing of the command line; of app/mcp the package mcp itself, whose session is a parameter
-- of the client; the attack suite and the benchmark, YAML and pydantic, the logger,
-- rounding of times. SHA-256, `json.dumps`, NFKC, the search of a regular expression and the text of
-- a duration are fields of `Platform`, so nothing is assumed of them. Of sqlite3's faults only a
-- closed connection and a broken constraint are modelled.
mod Base
pub mod Dict
pub mod Json
pub mod Result
pub mod Samples
pub mod Platform
pub mod Mcp
pub mod Models
pub mod Database
pub mod Authentication
pub mod Authorization
pub mod Risk
pub mod Scanner
pub mod Integrity
pub mod Api
pub mod Audit
pub mod Gateway
pub mod RateLimiter
pub mod CircuitBreaker
