-- ===== src/Sysroot/Complete.antt =====
-- What a header that is read has declared.
pub mod Lines
pub mod Headers
use dprint_clang_format.Base.{
  and_left, and_right, length, same, sym, ap, ◌∙◌, ◌++◌, Run, done, refl, if◌then◌else◌, Bool-cases,
  is_some, ℕ, zero, suc, ◌≡◌, inl, inr, Bool, true, false, not, ◌&&◌, Option, none, some, List, [],
  ◌∷◌,
}
use Prim.Native.String.{String}
use text.Mathlib.Text.{◌==◌}
use text.Mathlib.TextEquality.{eq_iff}
use mathlib.Core.Path.{subst}
use mathlib.Core.Logic.{⊎_elim}
use dprint_clang_format.Sysroot.Preprocess.Guards.{
  read_nil, IsGuarded, wraps, wraps_by, Effect, effect, after, opens, flips, closes, keeps, is_nil,
}
use mathlib.Core.List.{Memᴰ}
use mathlib.Core.List.Memᴰ
use dprint_clang_format.Sysroot.Syntax.{Line}
use dprint_clang_format.Sysroot.Preprocess.{
  Macro, Branch, taken, untaken, skipped, object, find_in, read_header, read_lines, read_line,
  Reading, then_read, is_active, is_defined,
}
use dprint_clang_format.Sysroot.Preprocess.Later.{split_then, from_done, read_line-Follows, Enters}
use dprint_clang_format.Sysroot.Preprocess.Once.{AllGuarded}

-- The declarations of a header that stand in no conditional but the one around it.
abbrev pub is_declaration : Line → Bool
is_declaration (Line.typedef n t) = true
is_declaration (Line.struct n fs) = true
is_declaration (Line.typedef_struct n fs) = true
is_declaration (Line.opaque n) = true
is_declaration (Line.variable n t) = true
is_declaration (Line.declare p) = true
is_declaration line = false

abbrev pub always_by : Effect → ℕ → Line → (ℕ → List Line) → List Line
always_by opens depth line rest = rest (suc depth)
always_by flips depth line rest = rest depth
always_by closes zero line rest = []
always_by closes (suc depth) line rest = rest depth
always_by keeps zero line rest = if is_declaration line then line ∷ rest zero else rest zero
always_by keeps (suc depth) line rest = rest (suc depth)

unfoldable pub always : List Line → ℕ → List Line
always [] depth = []
always (line ∷ lines) depth = always_by (effect line) depth line (always lines)

abbrev pub guards_with : String → List Line → Bool
guards_with n (Line.ifndef guard ∷ rest) = guard == n
guards_with n lines = false

-- The first header with this guard.
unfoldable pub owner : String → List (String × List Line) → Option String
owner n [] = none
owner n ((name, lines) ∷ entries) = if guards_with n lines then some name else owner n entries

abbrev pub line_clean : (String → Option String) → Line → Bool
line_clean own (Line.define_empty n) = not (is_some (own n))
line_clean own (Line.define n body) = not (is_some (own n))
line_clean own (Line.define_call n param body) = not (is_some (own n))
line_clean own line = true

unfoldable pub lines_clean : (String → Option String) → List Line → Bool
lines_clean own [] = true
lines_clean own (line ∷ lines) = line_clean own line && lines_clean own lines

-- Headers that are guarded, each by a name of its own that no other line defines.
pub record WellKept (table : List (String × List Line)) : Type 0 where
  pub guarded : AllGuarded table
  pub owned :
      (name : String) (lines : List Line) (found : find_in name table ≡ some lines)
      → owner (guarded name lines found).guard table ≡ some name
  pub clean :
      (name : String) (lines : List Line) (found : find_in name table ≡ some lines)
      → lines_clean (λ n. owner n table) (guarded name lines found).rest ≡ true

module _ (table : List (String × List Line)) (t : WellKept table) where
  abbrev pub Declares : List Line → Reading → Type 0
  Declares lines r = (line : Line) → Memᴰ line (always lines 0) → Memᴰ line r.declared

  -- Nothing that was declared is lost, and a header whose guard is new has been read to its end.
  abbrev pub Progress : Reading → Reading → Type 0
  Progress r r' =
      ((line : Line) → Memᴰ line r.declared → Memᴰ line r'.declared)
      × ((name : String) (lines : List Line) (found : find_in name table ≡ some lines)
          → is_defined (t.guarded name lines found).guard r ≡ false
          → is_defined (t.guarded name lines found).guard r' ≡ true
          → Declares (t.guarded name lines found).rest r')

  pub stay :
      (r r' : Reading)
      → r'.macros ≡ r.macros
      → ((line : Line) → Memᴰ line r.declared → Memᴰ line r'.declared)
      → Progress r r'
  stay r r' same_macros more = (
    more,
    λ name lines found fresh known. absurd (clash (t.guarded name lines found).guard fresh known),
  )
    where
      clash : (k : String) → is_defined k r ≡ false → is_defined k r' ≡ true → ⊥
      clash k fresh known = cc

  pub Progress-trans : (r s r' : Reading) → Progress r s → Progress s r' → Progress r r'
  Progress-trans r s r' (more, new) (more', new') = (
    λ line m. more' line (more line m),
    λ name lines found fresh known.
        elim (Bool-cases (is_defined (t.guarded name lines found).guard s)) [
          | inl before ↦ λ line m. more' line (new name lines found fresh before line m)
          | inr later ↦ new' name lines found later known
        ],
  )

  pub define-Progress :
      (n : String) (macro : Macro) (r : Reading)
      → not (is_some (owner n table)) ≡ true
      → Progress r (record r { macros = (n, macro) ∷ r.macros })
  define-Progress n macro r free = (
    λ line m. m,
    λ name lines found fresh known. elim (Bool-cases (n == (t.guarded name lines found).guard)) [
      | inl hit ↦ absurd (
          taken_already name
            (rw ((eq_iff n (t.guarded name lines found).guard).0 hit) (t.owned name lines found)))
      | inr other ↦ absurd (clash (rw other at known) fresh)
    ],
  )
    where
      taken_already : (name : String) → owner n table ≡ some name → ⊥
      taken_already name e = cc

      clash : {b : Bool} → b ≡ true → b ≡ false → ⊥
      clash e f = cc

  pub same-Progress : (b : Bool) (r r' : Reading) → Progress r r' → Progress r (if b then r' else r)
  same-Progress true r r' p = p
  same-Progress false r r' p = stay r r refl (λ line m. m)
