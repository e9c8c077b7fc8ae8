-- ===== src/Proxy.antt =====
-- internal/ptyproxy/server.go: the clients of a proxy and what is drawn for them.
pub mod Clients
pub mod Idle
pub mod Sweep
pub mod StatusFile
