-- ===== src/Keys.antt =====
-- What a stretch of input from a terminal means: internal/screen/input.go, and its dispatch at the
-- host (internal/ptyproxy/server.go) and at a client (internal/client/client.go).
pub mod Input
pub mod Host
pub mod Client
pub mod Same
