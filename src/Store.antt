-- ===== src/Store.antt =====
-- internal/store: the persistence of the Control plane.
pub mod Db
pub mod Tokens
pub mod Agents
pub mod Reports
pub mod Acl
pub mod Audit
pub mod Update
