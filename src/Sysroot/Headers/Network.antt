-- ===== src/Sysroot/Headers/Network.antt =====
-- Headers of support/wasm-sysroot/include: sockets and the names of machines.
use dprint_clang_format.Base.{List, [], ◌∷◌}
use dprint_clang_format.Sysroot.Syntax.{
  Line, void, char, unsigned_short, int, unsigned_int, const, pointer, array, alias, tag, number,
  ifndef, ifdef, endif, include, define_empty, define, extern_c, close_extern_c, typedef, struct,
  proto,
}

-- support/wasm-sysroot/include/sys/socket.h
unfoldable pub sys_socket_h : List Line
sys_socket_h =
    ifndef "DPRINT_CLANG_FORMAT_WASM_SYS_SOCKET_H"
    ∷ define_empty "DPRINT_CLANG_FORMAT_WASM_SYS_SOCKET_H"
    ∷ include "stddef.h"
    ∷ include "sys/types.h"
    ∷ typedef "socklen_t" unsigned_int
    ∷ struct "sockaddr" (("sa_family", unsigned_short) ∷ (("sa_data", array char 14) ∷ []))
    ∷ define "AF_UNIX" (number 1)
    ∷ define "SOCK_STREAM" (number 1)
    ∷ define "SOL_SOCKET" (number 1)
    ∷ define "SO_PEERCRED" (number 17)
    ∷ ifdef "__cplusplus"
    ∷ extern_c
    ∷ endif
    ∷ proto int "socket" (int ∷ (int ∷ (int ∷ [])))
    ∷ proto int "connect" (int ∷ (pointer (const (tag "sockaddr")) ∷ (alias "socklen_t" ∷ [])))
    ∷ proto int "bind" (int ∷ (pointer (const (tag "sockaddr")) ∷ (alias "socklen_t" ∷ [])))
    ∷ proto int "listen" (int ∷ (int ∷ []))
    ∷ proto int "accept" (int ∷ (pointer (tag "sockaddr") ∷ (pointer (alias "socklen_t") ∷ [])))
    ∷ proto int "setsockopt"
        (int ∷ (int ∷ (int ∷ (pointer (const void) ∷ (alias "socklen_t" ∷ [])))))
    ∷ ifdef "__cplusplus"
    ∷ close_extern_c
    ∷ endif
    ∷ endif
    ∷ []

-- support/wasm-sysroot/include/sys/un.h
unfoldable pub sys_un_h : List Line
sys_un_h =
    ifndef "DPRINT_CLANG_FORMAT_WASM_SYS_UN_H"
    ∷ define_empty "DPRINT_CLANG_FORMAT_WASM_SYS_UN_H"
    ∷ include "sys/socket.h"
    ∷ struct "sockaddr_un" (("sun_family", unsigned_short) ∷ (("sun_path", array char 108) ∷ []))
    ∷ endif
    ∷ []

-- support/wasm-sysroot/include/sys/utsname.h
unfoldable pub sys_utsname_h : List Line
sys_utsname_h =
    ifndef "DPRINT_CLANG_FORMAT_WASM_SYS_UTSNAME_H"
    ∷ define_empty "DPRINT_CLANG_FORMAT_WASM_SYS_UTSNAME_H"
    ∷ struct "utsname" (
        ("sysname", array char 65)
        ∷ (("nodename", array char 65)
            ∷ (("release", array char 65)
                ∷ (("version", array char 65) ∷ (("machine", array char 65) ∷ [])))))
    ∷ ifdef "__cplusplus"
    ∷ extern_c
    ∷ endif
    ∷ proto int "uname" (pointer (tag "utsname") ∷ [])
    ∷ ifdef "__cplusplus"
    ∷ close_extern_c
    ∷ endif
    ∷ endif
    ∷ []
