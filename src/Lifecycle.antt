-- ===== src/Lifecycle.antt =====
-- scaffold.go: the lifecycle of a daemon.
pub mod Callbacks
pub mod Probe
pub mod Open
pub mod Shutdown
pub mod Options
pub mod Instance
pub mod Run
pub mod Loops
pub mod Start
pub mod Serve
