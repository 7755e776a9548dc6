-- ===== src/Sysroot/Headers/Process.antt =====
-- Headers of support/wasm-sysroot/include: processes, signals, limits and users.
use dprint_clang_format.Base.{List, [], ◌∷◌}
use dprint_clang_format.Sysroot.Syntax.{
  Line, void, char, int, unsigned_int, long, unsigned_long, const, pointer, alias, tag, function,
  number, negative, word, cast, ifndef, ifdef, endif, include, define_empty, define, define_call,
  extern_c, close_extern_c, typedef, struct, typedef_struct, proto,
}

-- support/wasm-sysroot/include/dlfcn.h
unfoldable pub dlfcn_h : List Line
dlfcn_h =
    ifndef "DPRINT_CLANG_FORMAT_WASM_DLFCN_H"
    ∷ define_empty "DPRINT_CLANG_FORMAT_WASM_DLFCN_H"
    ∷ define "RTLD_LAZY" (number 1)
    ∷ define "RTLD_NOW" (number 2)
    ∷ define "RTLD_LOCAL" (number 0)
    ∷ define "RTLD_GLOBAL" (number 0x100)
    ∷ typedef_struct "Dl_info" (
        ("dli_fname", pointer (const char))
        ∷ (("dli_fbase", pointer void)
            ∷ (("dli_sname", pointer (const char)) ∷ (("dli_saddr", pointer void) ∷ []))))
    ∷ ifdef "__cplusplus"
    ∷ extern_c
    ∷ endif
    ∷ proto (pointer void) "dlopen" (pointer (const char) ∷ (int ∷ []))
    ∷ proto (pointer void) "dlsym" (pointer void ∷ (pointer (const char) ∷ []))
    ∷ proto int "dlclose" (pointer void ∷ [])
    ∷ proto (pointer char) "dlerror" []
    ∷ proto int "dladdr" (pointer (const void) ∷ (pointer (alias "Dl_info") ∷ []))
    ∷ ifdef "__cplusplus"
    ∷ close_extern_c
    ∷ endif
    ∷ endif
    ∷ []

-- support/wasm-sysroot/include/pwd.h
unfoldable pub pwd_h : List Line
pwd_h =
    ifndef "DPRINT_CLANG_FORMAT_WASM_PWD_H"
    ∷ define_empty "DPRINT_CLANG_FORMAT_WASM_PWD_H"
    ∷ struct "passwd" (("pw_name", pointer char) ∷ (("pw_dir", pointer char) ∷ []))
    ∷ ifdef "__cplusplus"
    ∷ extern_c
    ∷ endif
    ∷ proto (pointer (tag "passwd")) "getpwuid" (unsigned_int ∷ [])
    ∷ proto int "getpwnam_r" (
        pointer (const char)
        ∷ (pointer (tag "passwd")
            ∷ (pointer char ∷ (unsigned_long ∷ (pointer (pointer (tag "passwd")) ∷ [])))))
    ∷ proto int "getpwuid_r" (
        unsigned_int
        ∷ (pointer (tag "passwd")
            ∷ (pointer char ∷ (unsigned_long ∷ (pointer (pointer (tag "passwd")) ∷ [])))))
    ∷ ifdef "__cplusplus"
    ∷ close_extern_c
    ∷ endif
    ∷ endif
    ∷ []

-- support/wasm-sysroot/include/signal.h
unfoldable pub signal_h : List Line
signal_h =
    ifndef "DPRINT_CLANG_FORMAT_WASM_SIGNAL_H"
    ∷ define_empty "DPRINT_CLANG_FORMAT_WASM_SIGNAL_H"
    ∷ include "sys/types.h"
    ∷ define "SIGABRT" (number 6)
    ∷ define "SIGHUP" (number 1)
    ∷ define "SIGINT" (number 2)
    ∷ define "SIGQUIT" (number 3)
    ∷ define "SIGSEGV" (number 11)
    ∷ define "SIGBUS" (number 10)
    ∷ define "SIGILL" (number 4)
    ∷ define "SIGFPE" (number 8)
    ∷ define "SIGTRAP" (number 5)
    ∷ define "SIGPIPE" (number 13)
    ∷ define "SIGALRM" (number 14)
    ∷ define "SIGTERM" (number 15)
    ∷ define "SIGKILL" (number 9)
    ∷ define "SIGUSR1" (number 30)
    ∷ define "SIGUSR2" (number 31)
    ∷ define "SIG_SETMASK" (number 2)
    ∷ define "SIG_UNBLOCK" (number 1)
    ∷ define "SA_NODEFER" (number 0x01)
    ∷ define "SA_RESETHAND" (number 0x02)
    ∷ define "SA_ONSTACK" (number 0x04)
    ∷ define "SA_SIGINFO" (number 0x08)
    ∷ typedef "sighandler_t" (pointer (function int void))
    ∷ typedef "sigset_t" unsigned_long
    ∷ typedef_struct "siginfo_t"
        (("si_signo", int) ∷ (("si_code", int) ∷ (("si_pid", alias "pid_t") ∷ [])))
    ∷ struct "sigaction" (
        ("sa_handler", alias "sighandler_t")
        ∷ ((
          "sa_sigaction",
          pointer (
              function int (function (pointer (alias "siginfo_t")) (function (pointer void) void))),
        )
            ∷ (("sa_mask", alias "sigset_t") ∷ (("sa_flags", int) ∷ []))))
    ∷ ifdef "__cplusplus"
    ∷ extern_c
    ∷ endif
    ∷ proto (alias "sighandler_t") "signal" (int ∷ (alias "sighandler_t" ∷ []))
    ∷ proto int "sigemptyset" (pointer (alias "sigset_t") ∷ [])
    ∷ proto int "sigfillset" (pointer (alias "sigset_t") ∷ [])
    ∷ proto int "sigaddset" (pointer (alias "sigset_t") ∷ (int ∷ []))
    ∷ proto int "sigaction"
        (int ∷ (pointer (const (tag "sigaction")) ∷ (pointer (tag "sigaction") ∷ [])))
    ∷ proto int "sigprocmask"
        (int ∷ (pointer (const (alias "sigset_t")) ∷ (pointer (alias "sigset_t") ∷ [])))
    ∷ proto int "raise" (int ∷ [])
    ∷ proto int "kill" (alias "pid_t" ∷ (int ∷ []))
    ∷ ifdef "__cplusplus"
    ∷ close_extern_c
    ∷ endif
    ∷ endif
    ∷ []

-- support/wasm-sysroot/include/sys/resource.h
unfoldable pub sys_resource_h : List Line
sys_resource_h =
    ifndef "DPRINT_CLANG_FORMAT_WASM_SYS_RESOURCE_H"
    ∷ define_empty "DPRINT_CLANG_FORMAT_WASM_SYS_RESOURCE_H"
    ∷ include "sys/time.h"
    ∷ typedef "rlim_t" unsigned_long
    ∷ struct "rlimit" (("rlim_cur", alias "rlim_t") ∷ (("rlim_max", alias "rlim_t") ∷ []))
    ∷ struct "rusage"
        (("ru_utime", tag "timeval") ∷ (("ru_stime", tag "timeval") ∷ (("ru_maxrss", long) ∷ [])))
    ∷ define "RLIM_INFINITY" (cast (alias "rlim_t") (negative 1))
    ∷ define "RLIMIT_CORE" (number 0)
    ∷ define "RLIMIT_DATA" (number 1)
    ∷ define "RLIMIT_STACK" (number 2)
    ∷ define "RLIMIT_RSS" (number 3)
    ∷ define "RUSAGE_SELF" (number 0)
    ∷ ifdef "__cplusplus"
    ∷ extern_c
    ∷ endif
    ∷ proto int "getrlimit" (int ∷ (pointer (tag "rlimit") ∷ []))
    ∷ proto int "setrlimit" (int ∷ (pointer (const (tag "rlimit")) ∷ []))
    ∷ proto int "getrusage" (int ∷ (pointer (tag "rusage") ∷ []))
    ∷ ifdef "__cplusplus"
    ∷ close_extern_c
    ∷ endif
    ∷ endif
    ∷ []

-- support/wasm-sysroot/include/sys/time.h
unfoldable pub sys_time_h : List Line
sys_time_h =
    ifndef "DPRINT_CLANG_FORMAT_WASM_SYS_TIME_H"
    ∷ define_empty "DPRINT_CLANG_FORMAT_WASM_SYS_TIME_H"
    ∷ include "time.h"
    ∷ struct "timeval" (("tv_sec", alias "time_t") ∷ (("tv_usec", long) ∷ []))
    ∷ ifdef "__cplusplus"
    ∷ extern_c
    ∷ endif
    ∷ proto int "gettimeofday" (pointer (tag "timeval") ∷ (pointer void ∷ []))
    ∷ ifdef "__cplusplus"
    ∷ close_extern_c
    ∷ endif
    ∷ endif
    ∷ []

-- support/wasm-sysroot/include/sys/wait.h
unfoldable pub sys_wait_h : List Line
sys_wait_h =
    ifndef "DPRINT_CLANG_FORMAT_WASM_SYS_WAIT_H"
    ∷ define_empty "DPRINT_CLANG_FORMAT_WASM_SYS_WAIT_H"
    ∷ include "sys/resource.h"
    ∷ include "sys/types.h"
    ∷ define "WNOHANG" (number 1)
    ∷ define_call "WIFEXITED" "status" (number 1)
    ∷ define_call "WEXITSTATUS" "status" (word "status")
    ∷ define_call "WIFSIGNALED" "status" (number 0)
    ∷ define_call "WTERMSIG" "status" (number 0)
    ∷ ifdef "__cplusplus"
    ∷ extern_c
    ∷ endif
    ∷ proto int "waitpid" (int ∷ (pointer int ∷ (int ∷ [])))
    ∷ proto (alias "pid_t") "wait4"
        (alias "pid_t" ∷ (pointer int ∷ (int ∷ (pointer (tag "rusage") ∷ []))))
    ∷ proto int "wait" (pointer int ∷ [])
    ∷ ifdef "__cplusplus"
    ∷ close_extern_c
    ∷ endif
    ∷ endif
    ∷ []
