-- ===== src/Sysroot/Headers.antt =====
-- The table of the headers under support/wasm-sysroot/include, by the name that `#include` has for them.
pub mod Core
pub mod Text
pub mod Library
pub mod Files
pub mod Descriptors
pub mod Process
pub mod Network
use Prim.Native.String.{String}
use dprint_clang_format.Base.{List, [], ◌∷◌}
use dprint_clang_format.Sysroot.Syntax.{Line}
use dprint_clang_format.Sysroot.Headers.Core.{
  assert_h, ctype_h, errno_h, limits_h, machine_endian_h, math_h, sched_h, setjmp_h, sysexits_h,
}
use dprint_clang_format.Sysroot.Headers.Text.{inttypes_h, wchar_h}
use dprint_clang_format.Sysroot.Headers.Library.{stdio_h, stdlib_h, string_h, time_h}
use dprint_clang_format.Sysroot.Headers.Files.{
  dirent_h, sys_mman_h, sys_stat_h, sys_statvfs_h, sys_types_h,
}
use dprint_clang_format.Sysroot.Headers.Descriptors.{fcntl_h, poll_h, unistd_h}
use dprint_clang_format.Sysroot.Headers.Process.{
  dlfcn_h, pwd_h, signal_h, sys_resource_h, sys_time_h, sys_wait_h,
}
use dprint_clang_format.Sysroot.Headers.Network.{sys_socket_h, sys_un_h, sys_utsname_h}

unfoldable pub sysroot : List (String × List Line)
unfolding assert_h ctype_h errno_h limits_h machine_endian_h math_h sched_h setjmp_h sysexits_h
    inttypes_h wchar_h stdio_h stdlib_h string_h time_h dirent_h sys_mman_h sys_stat_h sys_statvfs_h
    sys_types_h fcntl_h poll_h unistd_h dlfcn_h pwd_h signal_h sys_resource_h sys_time_h sys_wait_h
    sys_socket_h sys_un_h sys_utsname_h
sysroot =
    ("assert.h", assert_h)
    ∷ ("ctype.h", ctype_h)
    ∷ ("errno.h", errno_h)
    ∷ ("limits.h", limits_h)
    ∷ ("machine/endian.h", machine_endian_h)
    ∷ ("math.h", math_h)
    ∷ ("sched.h", sched_h)
    ∷ ("setjmp.h", setjmp_h)
    ∷ ("sysexits.h", sysexits_h)
    ∷ ("inttypes.h", inttypes_h)
    ∷ ("wchar.h", wchar_h)
    ∷ ("stdio.h", stdio_h)
    ∷ ("stdlib.h", stdlib_h)
    ∷ ("string.h", string_h)
    ∷ ("time.h", time_h)
    ∷ ("dirent.h", dirent_h)
    ∷ ("sys/mman.h", sys_mman_h)
    ∷ ("sys/stat.h", sys_stat_h)
    ∷ ("sys/statvfs.h", sys_statvfs_h)
    ∷ ("sys/types.h", sys_types_h)
    ∷ ("fcntl.h", fcntl_h)
    ∷ ("poll.h", poll_h)
    ∷ ("unistd.h", unistd_h)
    ∷ ("dlfcn.h", dlfcn_h)
    ∷ ("pwd.h", pwd_h)
    ∷ ("signal.h", signal_h)
    ∷ ("sys/resource.h", sys_resource_h)
    ∷ ("sys/time.h", sys_time_h)
    ∷ ("sys/wait.h", sys_wait_h)
    ∷ ("sys/socket.h", sys_socket_h)
    ∷ ("sys/un.h", sys_un_h)
    ∷ ("sys/utsname.h", sys_utsname_h)
    ∷ []
