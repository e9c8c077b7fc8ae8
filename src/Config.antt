-- ===== src/Config.antt =====
-- internal/config: the settings and how they are read (config.go), and the list of clouds (clouds.go).
pub mod Values
pub mod Number
pub mod Keyspec
pub mod Load
pub mod Clouds
pub mod Names
