-- ===== src/Sysroot/Preprocess.antt =====
-- How a compiler reads the headers under support/wasm-sysroot/include: the directives that they use.
-- A header that is not in the table is the compiler's own, and adds nothing here.
pub mod Depth
pub mod Guards
pub mod Later
pub mod Once
use dprint_clang_format.Base.{
  ℕ, zero, suc, Bool, true, false, not, Option, none, some, List, [], ◌∷◌, Run, done, out_of_fuel,
  is_some, if◌then◌else◌,
}
use Prim.Native.String.{String}
use text.Mathlib.Text.{◌==◌}
use dprint_clang_format.Sysroot.Syntax.{Line, Expr}

pub data Macro : Type 0 where
  empty : Macro
  object : Expr → Macro
  call : String → Expr → Macro

-- A conditional that is open: its lines are read, they are not but those of its `#else` are, or all of
-- it stands among lines that are not read.
pub data Branch : Type 0 where
  taken untaken skipped : Branch

pub record Reading : Type 0 where
  pub macros : List (String × Macro)
  pub branches : List Branch
  -- The declarations that were read, the last first.
  pub declared : List Line

abbrev pub find_in {ℓ} : {A : Type ℓ} → String → List (String × A) → Option A
find_in k [] = none
find_in k ((j, a) ∷ entries) = if j == k then some a else find_in k entries

abbrev pub is_defined : String → Reading → Bool
is_defined k r = is_some (find_in k r.macros)

abbrev pub active_in : List Branch → Bool
active_in [] = true
active_in (taken ∷ branches) = true
active_in (untaken ∷ branches) = false
active_in (skipped ∷ branches) = false

abbrev pub is_active : Reading → Bool
is_active r = active_in r.branches

abbrev chosen : Bool → Branch
chosen b = if b then taken else untaken

abbrev pub flipped : List Branch → List Branch
flipped [] = []
flipped (taken ∷ branches) = untaken ∷ branches
flipped (untaken ∷ branches) = taken ∷ branches
flipped (skipped ∷ branches) = skipped ∷ branches

abbrev pub closed : List Branch → List Branch
closed [] = []
closed (branch ∷ branches) = branches

abbrev opened : Bool → Reading → Reading
opened b r = record r { branches = (if is_active r then chosen b else skipped) ∷ r.branches }

-- What stands on a line that is read.
abbrev when_active : Reading → Reading → Reading
when_active r r' = if is_active r then r' else r

abbrev defined : String → Macro → Reading → Reading
defined name macro r = when_active r (record r { macros = (name, macro) ∷ r.macros })

abbrev emitted : Line → Reading → Reading
emitted line r = when_active r (record r { declared = line ∷ r.declared })

-- A line, where `enter` reads a header that is included.
unfoldable pub read_line : (String → Reading → Run Reading) → Line → Reading → Run Reading
read_line enter (Line.ifndef name) r = done (opened (not (is_defined name r)) r)
read_line enter (Line.ifdef name) r = done (opened (is_defined name r) r)
read_line enter Line.otherwise r = done (record r { branches = flipped r.branches })
read_line enter Line.endif r = done (record r { branches = closed r.branches })
read_line enter (Line.include name) r = if is_active r then enter name r else done r
read_line enter (Line.include_next name) r = done r
read_line enter (Line.define_empty name) r = done (defined name empty r)
read_line enter (Line.define name body) r = done (defined name (object body) r)
read_line enter (Line.define_call name param body) r = done (defined name (call param body) r)
read_line enter line r = done (emitted line r)

abbrev pub then_read : Run Reading → (Reading → Run Reading) → Run Reading
then_read out_of_fuel next = out_of_fuel
then_read (done r) next = next r

unfoldable pub read_lines : (String → Reading → Run Reading) → List Line → Reading → Run Reading
unfolding read_line
read_lines enter [] r = done r
read_lines enter (line ∷ lines) r = then_read (read_line enter line r) (read_lines enter lines)

abbrev read_found : (String → Reading → Run Reading) → Option (List Line) → Reading → Run Reading
read_found enter none r = done r
read_found enter (some lines) r = read_lines enter lines r

-- `#include <name>`. The fuel is the depth to which headers include one another.
unfoldable pub read_header : List (String × List Line) → ℕ → String → Reading → Run Reading
unfolding read_lines
read_header table zero name r = out_of_fuel
read_header table (suc fuel) name r = read_found (read_header table fuel) (find_in name table) r
