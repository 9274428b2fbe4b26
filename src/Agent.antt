-- ===== src/Agent.antt =====
-- internal/agent: the program that runs beside the sshd of a machine.
pub mod Dir
pub mod Policy
pub mod Apply
pub mod Wipe
pub mod Spool
pub mod Loop
pub mod PayloadStore
pub mod Host
pub mod Launcher
pub mod SelfUpdate
