-- ===== src/Config.antt =====
-- The providers of configuration: config.go, config_map.go and config_file.go.
pub mod Strconv
pub mod Parse
pub mod Provider
pub mod Env
pub mod Map
pub mod Filepath
pub mod File
pub mod Contract
pub mod Numbers
