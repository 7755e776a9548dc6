-- ===== src/Sysroot/Scoped.antt =====
-- Type names in the headers under support/wasm-sysroot/include: which a declaration uses, which it
-- gives, and a scan of a header for names that it uses too early.
pub mod Lines
pub mod Follows
pub mod Headers
use dprint_clang_format.Base.{
  all_of, ℕ, zero, suc, ◌≡◌, ◌⊎◌, Bool, true, false, not, ◌&&◌, Option, none, some, List, [], ◌∷◌,
  ◌++◌,
}
use Prim.Native.String.{String}
use mathlib.Core.List.{Memᴰ}
use dprint_clang_format.Sysroot.Syntax.{Ctype, Line}
use dprint_clang_format.Sysroot.Preprocess.{find_in}
use dprint_clang_format.Sysroot.Preprocess.Guards.{Effect, effect, opens, flips, closes, keeps}
use dprint_clang_format.Sysroot.Complete.{always}
use dprint_clang_format.Sysroot.Complete.Headers.{inside}
use dprint_clang_format.Sysroot.Table.{elem}

-- The names of stddef.h and stdint.h, which are the compiler's, and of its builtin types.
abbrev pub compiler_names : List String
compiler_names = "size_t" ∷ "wchar_t" ∷ "uint64_t" ∷ []

unfoldable pub names_in : Ctype → List String
names_in (Ctype.alias name) = name ∷ []
names_in (Ctype.const t) = names_in t
names_in (Ctype.pointer t) = names_in t
names_in (Ctype.array t n) = names_in t
names_in (Ctype.function a b) = names_in a ++ names_in b
names_in t = []

unfoldable pub names_in_all : List Ctype → List String
names_in_all [] = []
names_in_all (t ∷ ts) = names_in t ++ names_in_all ts

unfoldable pub names_in_fields : List (String × Ctype) → List String
names_in_fields [] = []
names_in_fields ((name, t) ∷ fields) = names_in t ++ names_in_fields fields

-- The type names that a line uses.
unfoldable pub uses : Line → List String
unfolding names_in names_in_all names_in_fields
uses (Line.typedef name t) = names_in t
uses (Line.struct name fields) = names_in_fields fields
uses (Line.typedef_struct name fields) = names_in_fields fields
uses (Line.variable name t) = names_in t
uses (Line.declare p) = names_in p.result ++ names_in_all p.params
uses line = []

-- The type name that a line gives.
abbrev pub gives : Line → Option String
gives (Line.typedef name t) = some name
gives (Line.typedef_struct name fields) = some name
gives (Line.opaque name) = some name
gives line = none

abbrev pub Offered : String → List Line → Type 0
Offered name lines = (line : Line) × Memᴰ line lines × (gives line ≡ some name)

-- In a list of declarations, the last first, each type name has been declared before it is used.
unfoldable pub Scoped : List Line → Type 0
Scoped [] = Unit
Scoped (line ∷ before) =
    ((name : String) → Memᴰ name (uses line) → Memᴰ name compiler_names ⊎ Offered name before)
    × Scoped before

abbrev with_name : Option String → List String → List String
with_name none names = names
with_name (some name) names = name ∷ names

unfoldable pub names_given : List Line → List String
names_given [] = []
names_given (line ∷ lines) = with_name (gives line) (names_given lines)

abbrev given_by : Option (List Line) → List String
given_by none = []
given_by (some lines) = names_given (always (inside lines) 0)

-- The names that are there once a header has been read.
unfoldable pub provided : List (String × List Line) → String → List String
provided table name = given_by (find_in name table)

module _ (provides : String → List String) (clear : String → Bool) where
  -- The names that are there after a line that is read.
  abbrev pub offered : Line → List String → List String
  offered (Line.include name) names = provides name ++ names
  offered line names = with_name (gives line) names

  abbrev pub line_scoped : Line → List String → Bool
  line_scoped (Line.include name) names = clear name
  line_scoped line names = all_of (λ name. elem name (compiler_names ++ names)) (uses line)

  abbrev pub scan_by : Effect → ℕ → Line → List String → (ℕ → List String → Bool) → Bool
  scan_by opens depth line names rest = rest (suc depth) names
  scan_by flips depth line names rest = rest depth names
  scan_by closes zero line names rest = true
  scan_by closes (suc depth) line names rest = rest depth names
  scan_by keeps zero line names rest = rest zero (offered line names)
  scan_by keeps (suc depth) line names rest = rest (suc depth) names

  -- Whether each line uses names that are there, whichever conditionals hold.
  unfoldable pub scan : List Line → ℕ → List String → Bool
  unfolding all_of uses
  scan [] depth names = true
  scan (line ∷ lines) depth names =
      line_scoped line names && scan_by (effect line) depth line names (scan lines)

abbrev scan_found : (String → List String) → (String → Bool) → Option (List Line) → Bool
scan_found provides clear none = true
scan_found provides clear (some lines) = scan provides clear (inside lines) 0 []

-- Whether the header and those that it includes are in order, and it is none of those that are
-- being read.
unfoldable pub in_order : List (String × List Line) → ℕ → List String → String → Bool
unfolding scan provided
in_order table zero seen name = false
in_order table (suc depth) seen name =
    not (elem name seen)
    && scan_found (provided table) (in_order table depth (name ∷ seen)) (find_in name table)
