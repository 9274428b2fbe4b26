-- ===== src/Tests.antt =====
-- Runs of the code at concrete inputs.
pub mod Fixtures
pub mod TextRuns
pub mod StoreRuns
pub mod CertRuns
pub mod ServerRuns
pub mod RouterRuns
pub mod AgentRuns
pub mod LauncherRuns
pub mod LoopRuns
pub mod SpoolRuns
pub mod ToolRuns
