-- ===== src/Runtime.antt =====
-- src/wasm_runtime_core.cpp: the part of a C and C++ runtime that the plugin links.
pub mod Memory
pub mod Block
pub mod Cstring
pub mod Ctype
pub mod Wide
pub mod Random
pub mod Hooks
pub mod Floats
pub mod Number
