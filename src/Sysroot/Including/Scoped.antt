-- ===== src/Sysroot/Including/Scoped.antt =====
-- Type names in a file that includes headers.
use dprint_clang_format.Sysroot.Scoped.{Scoped}
