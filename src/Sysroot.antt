-- ===== src/Sysroot.antt =====
-- support/wasm-sysroot/include: the headers of a C library that LLVM and the runtime are compiled with.
pub mod Syntax
pub mod Headers
pub mod Preprocess
pub mod Table
pub mod Including
pub mod Values
pub mod Complete
pub mod Prototypes
pub mod Macros
pub mod Scoped
pub mod Unique
