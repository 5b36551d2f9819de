-- ===== src/Cmd.antt =====
-- cmd/hostcontroller and cmd/reloader: the start of the two processes.
pub mod Flags
pub mod HostController
pub mod Reloader
pub mod Start
