-- ===== src/Sysroot/Macros.antt =====
-- What the macros of the headers under support/wasm-sysroot/include come to, as C computes it on
-- numbers that are not negative.

use dprint_clang_format.Base.{
  when_equal, if◌then◌else◌, same, ℕ, zero, suc, Option, none, some, List, [], ◌∷◌,
}
pub mod Modes
pub mod Codes
pub mod Flags
use Prim.Native.String.{String}
use Prim.Native.Nat.{bit_and}
use text.Mathlib.Text.{◌==◌}
use dprint_clang_format.Sysroot.Syntax.{Line, Expr}
use dprint_clang_format.Sysroot.Preprocess.{find_in}

-- The object-like macros, and the macros with a parameter.
pub record Macros : Type 0 where
  pub objects : List (String × Expr)
  pub calls : List (String × (String × Expr))

abbrev add_macro : Line → Macros → Macros
add_macro (Line.define name body) ms = record ms { objects = (name, body) ∷ ms.objects }
add_macro (Line.define_call name param body) ms = record ms {
  calls = (name, (param, body)) ∷ ms.calls;
}
add_macro line ms = ms

unfoldable pub macros_of : List Line → Macros
macros_of [] = record { objects = []; calls = [] }
macros_of (line ∷ lines) = add_macro line (macros_of lines)

abbrev both : (ℕ → ℕ → ℕ) → Option ℕ → Option ℕ → Option ℕ
both f none b = none
both f (some a) none = none
both f (some a) (some b) = some (f a b)

abbrev pick : Option ℕ → Option ℕ → Option ℕ → Option ℕ
pick none a b = none
pick (some zero) a b = b
pick (some (suc c)) a b = a

-- The value of an expression, where `word` gives that of a name.
unfoldable pub value : (String → Option ℕ) → Expr → Option ℕ
value word (Expr.number n) = some n
value word (Expr.word name) = word name
value word (Expr.masked a b) = both bit_and (value word a) (value word b)
value word (Expr.equal a b) = both when_equal (value word a) (value word b)
value word (Expr.choose c a b) = pick (value word c) (value word a) (value word b)
value word e = none

abbrev found_value : (Expr → Option ℕ) → Option Expr → Option ℕ
found_value f none = none
found_value f (some e) = f e

-- The fuel is the depth to which macros name one another.
unfoldable pub object_value : List (String × Expr) → ℕ → String → Option ℕ
unfolding value
object_value objects zero name = none
object_value objects (suc fuel) name =
    found_value (value (object_value objects fuel)) (find_in name objects)

abbrev call_found : Macros → ℕ → ℕ → Option (String × Expr) → Option ℕ
call_found ms fuel argument none = none
call_found ms fuel argument (some (param, body)) =
    value (λ name. if param == name then some argument else object_value ms.objects fuel name) body

-- The macro called with a number.
unfoldable pub call_value : Macros → ℕ → String → ℕ → Option ℕ
unfolding value object_value
call_value ms fuel name argument = call_found ms fuel argument (find_in name ms.calls)
