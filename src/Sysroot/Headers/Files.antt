-- ===== src/Sysroot/Headers/Files.antt =====
-- Headers of support/wasm-sysroot/include: files, directories and memory maps.
use dprint_clang_format.Base.{List, [], ◌∷◌}
use dprint_clang_format.Sysroot.Syntax.{
  Line, void, char, unsigned_char, int, unsigned_int, long, unsigned_long, const, pointer, array,
  alias, tag, number, negative, word, member, cast, masked, equal, ifndef, ifdef, endif, include,
  define_empty, define, define_call, extern_c, close_extern_c, typedef, struct, opaque, proto,
}

-- support/wasm-sysroot/include/dirent.h
unfoldable pub dirent_h : List Line
dirent_h =
    ifndef "DPRINT_CLANG_FORMAT_WASM_DIRENT_H"
    ∷ define_empty "DPRINT_CLANG_FORMAT_WASM_DIRENT_H"
    ∷ opaque "DIR"
    ∷ struct "dirent"
        (("d_ino", unsigned_long) ∷ (("d_type", unsigned_char) ∷ (("d_name", array char 256) ∷ [])))
    ∷ ifdef "__cplusplus"
    ∷ extern_c
    ∷ endif
    ∷ proto (pointer (alias "DIR")) "opendir" (pointer (const char) ∷ [])
    ∷ proto (pointer (tag "dirent")) "readdir" (pointer (alias "DIR") ∷ [])
    ∷ proto int "closedir" (pointer (alias "DIR") ∷ [])
    ∷ ifdef "__cplusplus"
    ∷ close_extern_c
    ∷ endif
    ∷ endif
    ∷ []

-- support/wasm-sysroot/include/sys/mman.h
unfoldable pub sys_mman_h : List Line
sys_mman_h =
    ifndef "DPRINT_CLANG_FORMAT_WASM_SYS_MMAN_H"
    ∷ define_empty "DPRINT_CLANG_FORMAT_WASM_SYS_MMAN_H"
    ∷ include "stddef.h"
    ∷ include "sys/types.h"
    ∷ define "PROT_NONE" (number 0)
    ∷ define "PROT_READ" (number 1)
    ∷ define "PROT_WRITE" (number 2)
    ∷ define "PROT_EXEC" (number 4)
    ∷ define "MAP_PRIVATE" (number 0x02)
    ∷ define "MAP_SHARED" (number 0x01)
    ∷ define "MAP_ANON" (number 0x20)
    ∷ define "MAP_ANONYMOUS" (word "MAP_ANON")
    ∷ define "MAP_FAILED" (cast (pointer void) (negative 1))
    ∷ define "MS_SYNC" (number 0x04)
    ∷ define "MADV_DONTNEED" (number 4)
    ∷ define "MADV_WILLNEED" (number 3)
    ∷ ifdef "__cplusplus"
    ∷ extern_c
    ∷ endif
    ∷ proto (pointer void) "mmap"
        (pointer void ∷ (alias "size_t" ∷ (int ∷ (int ∷ (int ∷ (alias "off_t" ∷ []))))))
    ∷ proto int "munmap" (pointer void ∷ (alias "size_t" ∷ []))
    ∷ proto int "mprotect" (pointer void ∷ (alias "size_t" ∷ (int ∷ [])))
    ∷ proto int "msync" (pointer void ∷ (alias "size_t" ∷ (int ∷ [])))
    ∷ proto int "madvise" (pointer void ∷ (alias "size_t" ∷ (int ∷ [])))
    ∷ ifdef "__cplusplus"
    ∷ close_extern_c
    ∷ endif
    ∷ endif
    ∷ []

-- support/wasm-sysroot/include/sys/stat.h
unfoldable pub sys_stat_h : List Line
sys_stat_h =
    ifndef "DPRINT_CLANG_FORMAT_WASM_SYS_STAT_H"
    ∷ define_empty "DPRINT_CLANG_FORMAT_WASM_SYS_STAT_H"
    ∷ include "sys/types.h"
    ∷ include "time.h"
    ∷ define "S_IFMT" (number 61440)
    ∷ define "S_IFCHR" (number 8192)
    ∷ define "S_IFDIR" (number 16384)
    ∷ define "S_IFBLK" (number 24576)
    ∷ define "S_IFIFO" (number 4096)
    ∷ define "S_IFREG" (number 32768)
    ∷ define "S_IFLNK" (number 40960)
    ∷ define "S_IFSOCK" (number 49152)
    ∷ define_call "S_ISCHR" "mode" (equal (masked (word "mode") (word "S_IFMT")) (word "S_IFCHR"))
    ∷ define_call "S_ISDIR" "mode" (equal (masked (word "mode") (word "S_IFMT")) (word "S_IFDIR"))
    ∷ define_call "S_ISBLK" "mode" (equal (masked (word "mode") (word "S_IFMT")) (word "S_IFBLK"))
    ∷ define_call "S_ISFIFO" "mode" (equal (masked (word "mode") (word "S_IFMT")) (word "S_IFIFO"))
    ∷ define_call "S_ISREG" "mode" (equal (masked (word "mode") (word "S_IFMT")) (word "S_IFREG"))
    ∷ define_call "S_ISLNK" "mode" (equal (masked (word "mode") (word "S_IFMT")) (word "S_IFLNK"))
    ∷ define_call "S_ISSOCK" "mode" (equal (masked (word "mode") (word "S_IFMT")) (word "S_IFSOCK"))
    ∷ define "st_atime" (member "st_atim" "tv_sec")
    ∷ define "st_mtime" (member "st_mtim" "tv_sec")
    ∷ define "st_ctime" (member "st_ctim" "tv_sec")
    ∷ struct "stat" (
        ("st_dev", alias "dev_t")
        ∷ (("st_ino", alias "ino_t")
            ∷ (("st_mode", alias "mode_t")
                ∷ (("st_nlink", unsigned_long)
                    ∷ (("st_uid", alias "uid_t")
                        ∷ (("st_gid", alias "gid_t")
                            ∷ (("st_rdev", alias "dev_t")
                                ∷ (("st_size", alias "off_t")
                                    ∷ (("st_blksize", long)
                                        ∷ (("st_atim", tag "timespec")
                                            ∷ (("st_mtim", tag "timespec")
                                                ∷ (("st_ctim", tag "timespec") ∷ []))))))))))))
    ∷ ifdef "__cplusplus"
    ∷ extern_c
    ∷ endif
    ∷ proto int "fstat" (int ∷ (pointer (tag "stat") ∷ []))
    ∷ proto int "lstat" (pointer (const char) ∷ (pointer (tag "stat") ∷ []))
    ∷ proto int "mkdir" (pointer (const char) ∷ (alias "mode_t" ∷ []))
    ∷ proto int "stat" (pointer (const char) ∷ (pointer (tag "stat") ∷ []))
    ∷ proto int "chmod" (pointer (const char) ∷ (alias "mode_t" ∷ []))
    ∷ proto int "fchmod" (int ∷ (alias "mode_t" ∷ []))
    ∷ proto (alias "mode_t") "umask" (alias "mode_t" ∷ [])
    ∷ ifdef "__cplusplus"
    ∷ close_extern_c
    ∷ endif
    ∷ endif
    ∷ []

-- support/wasm-sysroot/include/sys/statvfs.h
unfoldable pub sys_statvfs_h : List Line
sys_statvfs_h =
    ifndef "DPRINT_CLANG_FORMAT_WASM_SYS_STATVFS_H"
    ∷ define_empty "DPRINT_CLANG_FORMAT_WASM_SYS_STATVFS_H"
    ∷ include "stdint.h"
    ∷ define "MNT_LOCAL" (number 0x00001000)
    ∷ struct "statvfs" (
        ("f_bsize", unsigned_long)
        ∷ (("f_frsize", unsigned_long)
            ∷ (("f_blocks", unsigned_long)
                ∷ (("f_bfree", unsigned_long)
                    ∷ (("f_bavail", unsigned_long)
                        ∷ (("f_flags", unsigned_long) ∷ (("f_fsid", alias "uint64_t") ∷ [])))))))
    ∷ ifdef "__cplusplus"
    ∷ extern_c
    ∷ endif
    ∷ proto int "statvfs" (pointer (const char) ∷ (pointer (tag "statvfs") ∷ []))
    ∷ proto int "fstatvfs" (int ∷ (pointer (tag "statvfs") ∷ []))
    ∷ ifdef "__cplusplus"
    ∷ close_extern_c
    ∷ endif
    ∷ endif
    ∷ []

-- support/wasm-sysroot/include/sys/types.h
unfoldable pub sys_types_h : List Line
sys_types_h =
    ifndef "DPRINT_CLANG_FORMAT_WASM_SYS_TYPES_H"
    ∷ define_empty "DPRINT_CLANG_FORMAT_WASM_SYS_TYPES_H"
    ∷ include "stddef.h"
    ∷ include "stdint.h"
    ∷ typedef "ssize_t" long
    ∷ typedef "off_t" long
    ∷ typedef "pid_t" int
    ∷ typedef "mode_t" unsigned_int
    ∷ typedef "nlink_t" unsigned_long
    ∷ typedef "uid_t" unsigned_int
    ∷ typedef "gid_t" unsigned_int
    ∷ typedef "dev_t" unsigned_long
    ∷ typedef "ino_t" unsigned_long
    ∷ endif
    ∷ []
