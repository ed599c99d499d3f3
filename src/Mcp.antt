-- ===== src/Mcp.antt =====
-- The connectors to MCP servers (app/mcp): the demonstration server and the client.
pub mod Client
pub mod Server
