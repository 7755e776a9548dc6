-- ===== src/Sysroot/Headers/Descriptors.antt =====
-- Headers of support/wasm-sysroot/include: file descriptors and the calls of POSIX.
use dprint_clang_format.Base.{List, [], ◌∷◌}
use dprint_clang_format.Sysroot.Syntax.{
  Line, void, char, short, int, unsigned_int, long, unsigned_long, const, pointer, alias, tag,
  number, ifndef, ifdef, endif, include, define_empty, define, extern_c, close_extern_c, typedef,
  struct, proto, proto_variadic, proto_no_return,
}

-- support/wasm-sysroot/include/fcntl.h
unfoldable pub fcntl_h : List Line
fcntl_h =
    ifndef "DPRINT_CLANG_FORMAT_WASM_FCNTL_H"
    ∷ define_empty "DPRINT_CLANG_FORMAT_WASM_FCNTL_H"
    ∷ define "F_GETFD" (number 1)
    ∷ define "F_SETFD" (number 2)
    ∷ define "F_GETFL" (number 3)
    ∷ define "F_SETFL" (number 4)
    ∷ define "F_SETLK" (number 6)
    ∷ define "F_SETLKW" (number 7)
    ∷ define "FD_CLOEXEC" (number 1)
    ∷ define "F_RDLCK" (number 0)
    ∷ define "F_WRLCK" (number 1)
    ∷ define "F_UNLCK" (number 2)
    ∷ define "O_RDONLY" (number 0)
    ∷ define "O_WRONLY" (number 1)
    ∷ define "O_RDWR" (number 2)
    ∷ define "O_CREAT" (number 0x0040)
    ∷ define "O_EXCL" (number 0x0080)
    ∷ define "O_TRUNC" (number 0x0200)
    ∷ define "O_APPEND" (number 0x0400)
    ∷ define "O_NONBLOCK" (number 0x0004)
    ∷ define "O_CLOEXEC" (number 0x01000000)
    ∷ struct "flock" (
        ("l_type", short)
        ∷ (("l_whence", short) ∷ (("l_start", long) ∷ (("l_len", long) ∷ (("l_pid", int) ∷ [])))))
    ∷ ifdef "__cplusplus"
    ∷ extern_c
    ∷ endif
    ∷ proto_variadic int "fcntl" (int ∷ (int ∷ []))
    ∷ proto_variadic int "open" (pointer (const char) ∷ (int ∷ []))
    ∷ ifdef "__cplusplus"
    ∷ close_extern_c
    ∷ endif
    ∷ endif
    ∷ []

-- support/wasm-sysroot/include/poll.h
unfoldable pub poll_h : List Line
poll_h =
    ifndef "DPRINT_CLANG_FORMAT_WASM_POLL_H"
    ∷ define_empty "DPRINT_CLANG_FORMAT_WASM_POLL_H"
    ∷ typedef "nfds_t" unsigned_long
    ∷ struct "pollfd" (("fd", int) ∷ (("events", short) ∷ (("revents", short) ∷ [])))
    ∷ define "POLLIN" (number 0x001)
    ∷ define "POLLOUT" (number 0x004)
    ∷ define "POLLERR" (number 0x008)
    ∷ define "POLLNVAL" (number 0x020)
    ∷ ifdef "__cplusplus"
    ∷ extern_c
    ∷ endif
    ∷ proto int "poll" (pointer (tag "pollfd") ∷ (alias "nfds_t" ∷ (int ∷ [])))
    ∷ ifdef "__cplusplus"
    ∷ close_extern_c
    ∷ endif
    ∷ endif
    ∷ []

-- support/wasm-sysroot/include/unistd.h
unfoldable pub unistd_h : List Line
unistd_h =
    ifndef "DPRINT_CLANG_FORMAT_WASM_UNISTD_H"
    ∷ define_empty "DPRINT_CLANG_FORMAT_WASM_UNISTD_H"
    ∷ include "sys/types.h"
    ∷ define "STDIN_FILENO" (number 0)
    ∷ define "STDOUT_FILENO" (number 1)
    ∷ define "STDERR_FILENO" (number 2)
    ∷ define "SEEK_SET" (number 0)
    ∷ define "SEEK_CUR" (number 1)
    ∷ define "SEEK_END" (number 2)
    ∷ define "R_OK" (number 4)
    ∷ define "W_OK" (number 2)
    ∷ define "X_OK" (number 1)
    ∷ define "F_OK" (number 0)
    ∷ define "_SC_PAGE_SIZE" (number 30)
    ∷ define "_SC_ARG_MAX" (number 0)
    ∷ define "_SC_GETPW_R_SIZE_MAX" (number 1)
    ∷ define "_POSIX_ARG_MAX" (number 4096)
    ∷ ifdef "__cplusplus"
    ∷ extern_c
    ∷ endif
    ∷ proto int "close" (int ∷ [])
    ∷ proto int "access" (pointer (const char) ∷ (int ∷ []))
    ∷ proto unsigned_int "alarm" (unsigned_int ∷ [])
    ∷ proto int "dup" (int ∷ [])
    ∷ proto int "dup2" (int ∷ (int ∷ []))
    ∷ proto int "chdir" (pointer (const char) ∷ [])
    ∷ proto int "execv" (pointer (const char) ∷ (pointer (const (pointer char)) ∷ []))
    ∷ proto int "execve" (
        pointer (const char)
        ∷ (pointer (const (pointer char)) ∷ (pointer (const (pointer char)) ∷ [])))
    ∷ proto_no_return void "_exit" (int ∷ [])
    ∷ proto int "fork" []
    ∷ proto (pointer char) "getcwd" (pointer char ∷ (alias "size_t" ∷ []))
    ∷ proto int "gethostname" (pointer char ∷ (alias "size_t" ∷ []))
    ∷ proto (alias "pid_t") "getpid" []
    ∷ proto unsigned_int "getuid" []
    ∷ proto (alias "pid_t") "getsid" (alias "pid_t" ∷ [])
    ∷ proto int "isatty" (int ∷ [])
    ∷ proto int "link" (pointer (const char) ∷ (pointer (const char) ∷ []))
    ∷ proto int "pipe" (pointer int ∷ [])
    ∷ proto (alias "off_t") "lseek" (int ∷ (alias "off_t" ∷ (int ∷ [])))
    ∷ proto (alias "ssize_t") "read" (int ∷ (pointer void ∷ (alias "size_t" ∷ [])))
    ∷ proto (alias "ssize_t") "readlink"
        (pointer (const char) ∷ (pointer char ∷ (alias "size_t" ∷ [])))
    ∷ proto int "rmdir" (pointer (const char) ∷ [])
    ∷ proto (alias "pid_t") "setsid" []
    ∷ proto long "sysconf" (int ∷ [])
    ∷ proto int "symlink" (pointer (const char) ∷ (pointer (const char) ∷ []))
    ∷ proto int "ftruncate" (int ∷ (alias "off_t" ∷ []))
    ∷ proto int "fchown" (int ∷ (alias "uid_t" ∷ (alias "gid_t" ∷ [])))
    ∷ proto int "unlink" (pointer (const char) ∷ [])
    ∷ proto int "usleep" (unsigned_int ∷ [])
    ∷ proto (alias "ssize_t") "write" (int ∷ (pointer (const void) ∷ (alias "size_t" ∷ [])))
    ∷ ifdef "__cplusplus"
    ∷ close_extern_c
    ∷ endif
    ∷ endif
    ∷ []
