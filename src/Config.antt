-- ===== src/Config.antt =====
-- internal/config/config.go: the options of the program and how they are read.
pub mod Options
pub mod Paths
pub mod Storage
pub mod Load
pub mod Pid
pub mod Listen
