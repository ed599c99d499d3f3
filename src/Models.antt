-- ===== src/Models.antt =====
-- app/models: the policy, the events and the values that cross the firewall.
pub mod Policies
pub mod Events
pub mod Requests
