-- ===== src/Sysroot/Macros/Codes.antt =====
-- The codes of support/wasm-sysroot/include/errno.h.
use dprint_clang_format.Base.{
  Bool-cases, all_of-Mem, ◌≢◌, inl, inr, is_yes, if◌then◌else◌, all_of, ℕ, ◌≡◌, refl, Bool, true,
  false, not, Option, none, some, List, [], ◌∷◌,
}
use Prim.Native.String.{String}
use text.Mathlib.Text.{◌==◌}
use text.Mathlib.TextEquality.{eq_iff}
use mathlib.Core.List.{Memᴰ}
use native.Mathlib.Decide.{ℕ_discrete}
use dprint_clang_format.Sysroot.Headers.Core.{errno_h}
use dprint_clang_format.Sysroot.Table.{some_inner}
use dprint_clang_format.Sysroot.Macros.{macros_of, object_value, value}

abbrev keys {ℓ} : {A : Type ℓ} → List (String × A) → List String
keys [] = []
keys ((k, a) ∷ entries) = k ∷ keys entries

-- The names of the errors.
unfoldable pub errors : List String
unfolding macros_of errno_h
errors = keys ((macros_of errno_h).objects)

-- The code of an error. One of them is named by another.
unfoldable pub error_code : String → Option ℕ
unfolding macros_of errno_h object_value value
error_code name = object_value ((macros_of errno_h).objects) 2 name

-- POSIX lets two of the errors be one.
abbrev pub canonical : String → String
canonical name = if name == "EWOULDBLOCK" then "EAGAIN" else name

abbrev apart : Option ℕ → Option ℕ → Bool
apart none b = false
apart (some a) none = false
apart (some a) (some b) = not (is_yes (ℕ_discrete a b))

abbrev told_apart : String → String → Bool
told_apart a b = if canonical a == canonical b then true else apart (error_code a) (error_code b)

all_apart : all_of (λ a. all_of (told_apart a) errors) errors ≡ true
unfolding all_of errors error_code ℕ_discrete
all_apart = refl

apart-differ : (a b : Option ℕ) → apart a b ≡ true → a ≢ b
apart-differ none b h e = cc
apart-differ (some a) none h e = cc
apart-differ (some a) (some b) h e = differ (ℕ_discrete a b) h (some_inner e)
  where
    differ : (d : Dec (a ≡ b)) → not (is_yes d) ≡ true → a ≢ b
    differ (yes q) h e = cc
    differ (no other) h e = other e

-- Two errors of errno.h with the same code are the same, or are EAGAIN and EWOULDBLOCK.
pub error_code-canonical :
    (a b : String)
    → Memᴰ a errors
    → Memᴰ b errors
    → error_code a ≡ error_code b
    → canonical a ≡ canonical b
error_code-canonical a b m n e = elim (Bool-cases (canonical a == canonical b)) [
  | inl same_name ↦ (eq_iff (canonical a) (canonical b)).0 same_name
  | inr other ↦ absurd (
      apart-differ (error_code a) (error_code b)
        (rw other at (
          all_of-Mem (told_apart a) errors b
            (all_of-Mem (λ a. all_of (told_apart a) errors) errors a all_apart m) n))
        e)
]
