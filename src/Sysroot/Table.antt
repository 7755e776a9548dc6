-- ===== src/Sysroot/Table.antt =====
-- Tests of every header of a table under support/wasm-sysroot/include, and what they say of a header that
-- is looked up.

use dprint_clang_format.Base.{
  false, ◌||◌, and_left, and_right, Bool-cases, Option-cases, is_some, String, ◌≡◌, sym, inl, inr,
  Bool, true, ◌&&◌, some, List, [], ◌∷◌,
}
use mathlib.Core.List.{Memᴰ}
use text.Mathlib.TextEquality.{eq_iff}
use text.Mathlib.Text.{◌==◌}
use dprint_clang_format.Sysroot.Syntax.{Line}
use dprint_clang_format.Sysroot.Preprocess.{find_in}
use dprint_clang_format.Sysroot.Preprocess.Guards.{IsGuarded, as_guarded}
use dprint_clang_format.Sysroot.Preprocess.Once.{AllGuarded}

-- `test` holds of each name with what the table has for it.
unfoldable pub every {ℓ} : {A : Type ℓ} → (String → A → Bool) → List (String × A) → Bool
every test [] = true
every test ((k, a) ∷ entries) = test k a && every test entries

pub some_inner {ℓ} : {A : Type ℓ} {a b : A} → some a ≡ some b → a ≡ b
some_inner e = cc

pub every-found {ℓ} :
    {A : Type ℓ} (test : String → A → Bool) (table : List (String × A)) (name : String) (a : A)
    → every test table ≡ true
    → find_in name table ≡ some a
    → test name a ≡ true
unfolding every
every-found test [] name a h e = cc
every-found test ((k, b) ∷ entries) name a h e = elim (Bool-cases (k == name)) [
  | inl hit ↦
      rw (sym (some_inner (rw hit at e)), sym ((eq_iff k name).0 hit)) (and_left (test k b) _ h)
  | inr other ↦ every-found test entries name a (and_right (test k b) _ h) (rw other at e)
]

taken_out : (lines : List Line) → is_some (as_guarded lines) ≡ true → IsGuarded lines
taken_out lines e = elim (Option-cases (as_guarded lines)) [ inl absent ↦ cc | inr (g, found) ↦ g ]

pub every-AllGuarded :
    (table : List (String × List Line))
    → every (λ k lines. is_some (as_guarded lines)) table ≡ true
    → AllGuarded table
every-AllGuarded table h name lines found =
    taken_out lines (every-found (λ k lines. is_some (as_guarded lines)) table name lines h found)

unfoldable pub elem : String → List String → Bool
elem name [] = false
elem name (other ∷ names) = (other == name) || elem name names

pub elem-Mem : (name : String) (names : List String) → elem name names ≡ true → Memᴰ name names
unfolding elem
elem-Mem name [] e = cc
elem-Mem name (other ∷ names) e = elim (Bool-cases (other == name)) [
  | inl hit ↦ Memᴰ.head (sym ((eq_iff other name).0 hit))
  | inr miss ↦ Memᴰ.tail (elem-Mem name names (rw miss at e))
]
