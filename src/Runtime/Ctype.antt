-- ===== src/Runtime/Ctype.antt =====
-- The character tests of src/wasm_runtime_core.cpp, and `abs`. An `int` is the integer; a test's
-- result is 1 or 0 there, a Boolean here.
use dprint_clang_format.Base.{ℕ, ◌≡◌, Bool, ◌&&◌, ◌||◌, not, true, arith, if◌then◌else◌, ◌<◌, ◌^◌}
use dprint_clang_format.Base.Int.{ℤ, pos, negsuc, leb_ℤ, ltb_ℤ, add_ℤ, neg, signed32, pattern_of}

between : ℕ → ℤ → ℕ → Bool
between lo value hi = leb_ℤ (pos lo) value && leb_ℤ value (pos hi)

is : ℤ → ℕ → Bool
is value c = leb_ℤ value (pos c) && leb_ℤ (pos c) value

unfoldable pub isalpha : ℤ → Bool
unfolding between
isalpha value = between b'A' value b'Z' || between b'a' value b'z'

unfoldable pub isdigit : ℤ → Bool
unfolding between
isdigit value = between b'0' value b'9'

unfoldable pub isalnum : ℤ → Bool
unfolding isalpha isdigit
isalnum value = isalpha value || isdigit value

unfoldable pub islower : ℤ → Bool
unfolding between
islower value = between b'a' value b'z'

unfoldable pub isspace : ℤ → Bool
unfolding is
isspace value =
    is value 32 || is value 9 || is value 10 || is value 13 || is value 12 || is value 11

unfoldable pub isupper : ℤ → Bool
unfolding between
isupper value = between b'A' value b'Z'

unfoldable pub isxdigit : ℤ → Bool
unfolding isdigit between
isxdigit value = isdigit value || between b'A' value b'F' || between b'a' value b'f'

unfoldable pub tolower : ℤ → ℤ
unfolding isupper
tolower value = if isupper value then add_ℤ value (pos 32) else value

unfoldable pub toupper : ℤ → ℤ
unfolding islower
toupper value = if islower value then add_ℤ value (negsuc 31) else value

-- `-value` wraps around at the least `int`, as the target's subtraction does.
unfoldable pub abs : ℤ → ℤ
abs value = if ltb_ℤ value (pos 0) then signed32 (pattern_of 32 (neg value)) else value

-- The case of a letter is changed by `toupper` and `tolower`, each undoes the other on letters of the
-- case that it makes, and a value that is no letter is left alone by both.
pub toupper-tolower :
    (value : ℤ)
    → (isupper value ≡ true → (islower (tolower value) ≡ true) × (toupper (tolower value) ≡ value))
      × (islower value ≡ true
          → (isupper (toupper value) ≡ true) × (tolower (toupper value) ≡ value))
      × (not (isalpha value) ≡ true → (tolower value ≡ value) × (toupper value ≡ value))
unfolding toupper tolower isalpha
toupper-tolower (pos n) = ground arith
toupper-tolower (negsuc n) = ground arith

-- `abs` gives the size of every `int` but the least.
pub abs_size : (n : ℕ) → n < 2 ^ 31 → (abs (pos n) ≡ pos n) × (abs (neg (pos n)) ≡ pos n)
unfolding abs
abs_size n h = ground arith
