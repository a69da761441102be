-- ===== src/Session.antt =====
-- The session service of src/session: the protocol, the client, the server, and the two together.
pub mod Protocol
pub mod Client
pub mod Server
pub mod GgpoRelay
pub mod Wire
pub mod Joining
pub mod Readiness
