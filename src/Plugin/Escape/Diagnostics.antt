-- ===== src/Plugin/Escape/Diagnostics.antt =====
-- The array that `diagnostics_to_json` of src/dprint_plugin.cpp writes, read back.
use dprint_clang_format.Base.{
  ◌==◌, if◌then◌else◌, Bytes, text, ℕ, zero, suc, ◌≡◌, false, Option, none, some, List, [], ◌∷◌,
}
use dprint_clang_format.Plugin.Escape.{ConfigDiagnostic}
use dprint_clang_format.Plugin.Escape.Roundtrip.{◌>>=◌, read_string}

-- What follows the given text.
expect : Bytes → Bytes → Option Bytes
expect [] s = some s
expect (c ∷ t) [] = none
expect (c ∷ t) (d ∷ s) = if c == d then expect t s else none

read_item : Bytes → Option (ConfigDiagnostic × Bytes)
read_item s = do
  s ← expect (text "{\"propertyName\":\"") s
  (name, s) ← read_string false s
  s ← expect (text ",\"message\":\"") s
  (message, s) ← read_string false s
  s ← expect (text "}") s
  some (record { property_name = name; message = message }, s)

read_more : ℕ → Bytes → Option (List ConfigDiagnostic × Bytes)
read_more zero s = none
read_more (suc fuel) [] = none
read_more (suc fuel) (c ∷ s) =
    let item = do (d, s) ← read_item s; (ds, s) ← read_more fuel s; some (d ∷ ds, s)
    in if c == b']' then some ([], s) else if c == b',' then item else none

read_items : ℕ → Bytes → Option (List ConfigDiagnostic × Bytes)
read_items fuel [] = none
read_items fuel (c ∷ s) =
    let items = do (d, s) ← read_item (c ∷ s); (ds, s) ← read_more fuel s; some (d ∷ ds, s)
    in if c == b']' then some ([], s) else items

-- A JSON array of objects with the two members: the diagnostics, and what follows the array. The fuel
-- bounds the number of objects.
pub read_diagnostics : ℕ → Bytes → Option (List ConfigDiagnostic × Bytes)
read_diagnostics fuel [] = none
read_diagnostics fuel (c ∷ s) = if c == b'[' then read_items fuel s else none

-- What stands first in the array is no bracket.
IsOpen : Bytes → Type 0
IsOpen s = (t : Bytes) × (s ≡ b'{' ∷ t)
