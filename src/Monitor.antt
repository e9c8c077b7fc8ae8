-- ===== src/Monitor.antt =====
-- internal/monitor: the daemon that keeps a tmux window for each session (monitor.go) and pauses and resumes
-- sessions at the limits of their usage (limit.go, resume.go), with the sessions of internal/scanner and
-- the windows of internal/tmux.
pub mod Limit
pub mod Session
pub mod Windows
pub mod Resume
pub mod Sync
pub mod Tick
