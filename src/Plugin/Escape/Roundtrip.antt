-- ===== src/Plugin/Escape/Roundtrip.antt =====
-- The texts that `json_escape` and `diagnostics_to_json` of src/dprint_plugin.cpp write, read as JSON.
use dprint_clang_format.Base.{
  ◌==◌, if◌then◌else◌, Bytes, ℕ, ◌≤◌, ◌≡◌, refl, ◌⊎◌, Bool, true, false, Option, none, some, [],
  ◌∷◌, ◌++◌, arith,
}
use dprint_clang_format.Plugin.Escape.{json_escape}

infixl 5 ◌>>=◌
abbrev pub ◌>>=◌ {ℓ κ} : {A : Type ℓ} {B : Type κ} → Option A → (A → Option B) → Option B
none >>= k = none
some a >>= k = k a

-- The escapes of RFC 8259 but `\u`.
unescape : ℕ → Option ℕ
unescape c =
    if c == b'\\'
    then some b'\\'
    else if c == 34
    then some 34
    else if c == b'/'
    then some b'/'
    else if c == b'b'
    then some 8
    else if c == b'f'
    then some 12
    else if c == b'n'
    then some 10
    else if c == b'r'
    then some 13
    else if c == b't'
    then some 9
    else none

prepend : Option ℕ → Option (Bytes × Bytes) → Option (Bytes × Bytes)
prepend none r = none
prepend (some c) none = none
prepend (some c) (some (s, rest)) = some (c ∷ s, rest)

-- A JSON string from behind its opening quote: the text, and what follows the closing quote. The flag
-- is set behind a backslash.
unfoldable pub read_string : Bool → Bytes → Option (Bytes × Bytes)
unfolding unescape prepend
read_string escaped [] = none
read_string true (c ∷ s) = prepend (unescape c) (read_string false s)
read_string false (c ∷ s) =
    let plain = prepend (some c) (read_string false s) in
    let escape = read_string true s in
    if c == 34 then some ([], s) else if c == b'\\' then escape else plain

-- A JSON reader gives back the text that `json_escape` was given, and stops behind the quote.
pub read_string-json_escape :
    (s rest : Bytes) → read_string false (json_escape s ++ (34 ∷ rest)) ≡ some (s, rest)
unfolding read_string json_escape
read_string-json_escape [] rest = refl
read_string-json_escape (c ∷ s) rest = ground (arith, read_string-json_escape s rest)

-- What JSON allows to stand in a string: no control character.
abbrev pub IsPrintable : ℕ → Type 0
IsPrintable c = 32 ≤ c

abbrev pub IsEscaped : ℕ → Type 0
IsEscaped c = (32 ≤ c) ⊎ ((c ≡ 9) ⊎ ((c ≡ 10) ⊎ (c ≡ 13)))
