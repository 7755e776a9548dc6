-- ===== src/Sysroot/Syntax.antt =====
-- What the headers under support/wasm-sysroot/include are written in: the part of C that they use, and
-- the directives of its preprocessor.
use dprint_clang_format.Base.{◌↔◌, ◌≡◌, refl, ℕ, Bool, true, false, List}
use Prim.Native.String.{String}
use text.Mathlib.Text.{◌==◌}
use text.Mathlib.TextEquality.{eq_iff}
use native.Mathlib.Decide.{ℕ_discrete}

-- A type of C. A typedef and a tag are names. The names of parameters are left out.
pub data Ctype : Type 0 where
  void char unsigned_char short unsigned_short int unsigned_int long unsigned_long : Ctype
  long_long unsigned_long_long float double long_double va_list : Ctype
  const pointer : Ctype → Ctype
  array : Ctype → ℕ → Ctype
  alias tag : String → Ctype
  -- A function of the first type to the second. No function returns a function, so that one of
  -- several parameters is written one after another.
  function : Ctype → Ctype → Ctype

pub record Prototype : Type 0 where
  pub result : Ctype
  pub name : String
  pub params : List Ctype
  -- `, ...`
  pub variadic : Bool
  -- `__attribute__((noreturn))`
  pub no_return : Bool

-- The text that a macro stands for.
pub data Expr : Type 0 where
  number negative : ℕ → Expr
  quoted : String → Expr
  -- A macro, or the parameter of the macro.
  word : String → Expr
  -- A call of a builtin.
  builtin : String → Expr
  -- `st_atim.tv_sec`
  member : String → String → Expr
  cast : Ctype → Expr → Expr
  masked equal : Expr → Expr → Expr
  choose : Expr → Expr → Expr → Expr

-- A line, or the lines of one declaration.
pub data Line : Type 0 where
  ifndef ifdef : String → Line
  otherwise endif : Line
  include include_next : String → Line
  define_empty : String → Line
  define : String → Expr → Line
  -- A macro with one parameter.
  define_call : String → String → Expr → Line
  extern_c close_extern_c : Line
  typedef : String → Ctype → Line
  struct typedef_struct : String → List (String × Ctype) → Line
  -- `typedef struct X X;`
  opaque : String → Line
  -- `extern`
  variable : String → Ctype → Line
  declare : Prototype → Line

unfoldable pub decided {ℓ} : {A : Type ℓ} (b : Bool) → ((b ≡ true) ↔ A) → Dec A
decided true h = yes (h.0 refl)
decided false h = no (λ a. apart (h.1 a))
  where
    apart : false ≡ true → ⊥
    apart e = cc

-- Equality of names.
unfoldable pub String-discrete : Discrete String
unfolding decided
String-discrete s t = decided (s == t) (eq_iff s t)

unfoldable pub Ctype-discrete : Discrete Ctype
Ctype-discrete = hlevel (ℕ_discrete, String-discrete)

unfoldable pub Prototype-discrete : Discrete Prototype
Prototype-discrete = hlevel (String-discrete, Ctype-discrete)

unfoldable pub Expr-discrete : Discrete Expr
Expr-discrete = hlevel (ℕ_discrete, String-discrete, Ctype-discrete)

abbrev pub proto : Ctype → String → List Ctype → Line
proto result name params =
    declare (record {
      result = result;
      name = name;
      params = params;
      variadic = false;
      no_return = false;
    })

abbrev pub proto_variadic : Ctype → String → List Ctype → Line
proto_variadic result name params =
    declare
      (record { result = result; name = name; params = params; variadic = true; no_return = false })

abbrev pub proto_no_return : Ctype → String → List Ctype → Line
proto_no_return result name params =
    declare
      (record { result = result; name = name; params = params; variadic = false; no_return = true })
