-- ===== src/Sysroot/Prototypes/Conform.antt =====
-- The functions of src/wasm_runtime_core.cpp and the headers that declare them.
use dprint_clang_format.Base.{
  from_yes, all_of, all_of-Mem, some, is_yes, if◌then◌else◌, ◌≡◌, refl, Bool, true, false, List,
}
use Prim.Native.String.{String}
use text.Mathlib.Text.{◌==◌}
use text.Mathlib.TextEquality.{eq_iff}
use mathlib.Core.List.{Memᴰ}
use dprint_clang_format.Sysroot.Syntax.{
  Line, Prototype, Prototype-discrete, Ctype-discrete, String-discrete, decided,
}
use dprint_clang_format.Sysroot.Headers.{sysroot}
use dprint_clang_format.Sysroot.Preprocess.{find_in}
use dprint_clang_format.Sysroot.Table.{every, every-found}
use dprint_clang_format.Sysroot.Prototypes.{runtime_prototypes}

-- Without the attribute, which a definition takes over from the declaration.
abbrev pub signature : Prototype → Prototype
signature p = record p { no_return = false }

abbrev conforms : Prototype → Prototype → Bool
conforms p d =
    if p.name == d.name then is_yes (Prototype-discrete (signature p) (signature d)) else true

unfoldable line_conforms : Line → Bool
unfolding all_of runtime_prototypes Prototype-discrete
line_conforms (Line.declare p) = all_of (conforms p) runtime_prototypes
line_conforms line = true

all_conform : every (λ k. all_of line_conforms) sysroot ≡ true
unfolding every all_of line_conforms sysroot runtime_prototypes Prototype-discrete Ctype-discrete
    String-discrete decided
all_conform = refl

conforms-signature :
    (p d : Prototype) → conforms p d ≡ true → p.name ≡ d.name → signature p ≡ signature d
conforms-signature p d h e =
    from_yes (Prototype-discrete (signature p) (signature d)) (rw ((eq_iff p.name d.name).1 e) at h)

-- A function that a header declares and the runtime defines has the same result and parameters in both,
-- the `...` behind them included.
pub declared-signature :
    (header : String) (lines : List Line) (p d : Prototype)
    → find_in header sysroot ≡ some lines
    → Memᴰ (Line.declare p) lines
    → Memᴰ d runtime_prototypes
    → p.name ≡ d.name
    → signature p ≡ signature d
unfolding line_conforms
declared-signature header lines p d found m n = conforms-signature p d (
    all_of-Mem (conforms p) runtime_prototypes d
      (all_of-Mem line_conforms lines (Line.declare p)
        (every-found (λ k. all_of line_conforms) sysroot header lines all_conform found) m)
      n)
