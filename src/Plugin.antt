-- ===== src/Plugin.antt =====
-- src/dprint_plugin.cpp: the plugin behind the functions that dprint calls.
pub mod Platform
pub mod Escape
pub mod State
pub mod Registry
pub mod Options
pub mod Resolve
pub mod Payload
pub mod Format
pub mod Exports
