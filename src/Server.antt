-- ===== src/Server.antt =====
-- internal/server: the handlers of the Control plane.
pub mod Http
pub mod Auth
pub mod Resolve
pub mod Certs
pub mod Acl
pub mod Update
pub mod Register
pub mod Heartbeat
pub mod Tokens
pub mod Agents
pub mod AuditLog
pub mod Router
