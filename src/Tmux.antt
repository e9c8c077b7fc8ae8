-- ===== src/Tmux.antt =====
-- internal/tmuxcc: the client of tmux's control mode.
pub mod Text
pub mod Octal
pub mod Protocol
pub mod Layout
pub mod Forwarder
