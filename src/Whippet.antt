-- ===== src/Whippet.antt =====
-- sources/whippet: the launcher of the D-Bus broker, and the policy that it gives the broker.
pub mod Rule
pub mod Policy
pub mod Connect
pub mod DbusPolicy
pub mod Users
mod Examples
