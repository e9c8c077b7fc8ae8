-- ===== src/TtySync.antt =====
-- internal/ttysync: the batching pump between tmux and the outer terminal.
-- Ansi is ansi.go, Marker and Tracker are syncwrap.go, Pump is wrap.go.
pub mod Ansi
pub mod Marker
pub mod Tracker
pub mod Pump
