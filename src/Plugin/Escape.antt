-- ===== src/Plugin/Escape.antt =====
-- `json_escape` and `diagnostics_to_json` of src/dprint_plugin.cpp.
pub mod Roundtrip
pub mod Diagnostics
pub mod Members
use dprint_clang_format.Base.{◌==◌, if◌then◌else◌, Bytes, text, ℕ, List, [], ◌∷◌, ◌++◌}

pub record ConfigDiagnostic : Type 0 where
  pub property_name : Bytes
  pub message : Bytes

-- What a byte is replaced by.
escape_char : ℕ → Bytes
escape_char ch =
    if ch == b'\\'
    then b'\\' ∷ b'\\' ∷ []
    else if ch == 34
    then b'\\' ∷ 34 ∷ []
    else if ch == 10
    then b'\\' ∷ b'n' ∷ []
    else if ch == 13
    then b'\\' ∷ b'r' ∷ []
    else if ch == 9
    then b'\\' ∷ b't' ∷ []
    else ch ∷ []

unfoldable pub json_escape : Bytes → Bytes
unfolding escape_char
json_escape [] = []
json_escape (ch ∷ s) = escape_char ch ++ json_escape s

unfoldable pub diagnostic_to_json : ConfigDiagnostic → Bytes
unfolding json_escape
diagnostic_to_json d =
    text "{\"propertyName\":\""
    ++ (json_escape d.property_name
        ++ (text "\",\"message\":\"" ++ (json_escape d.message ++ text "\"}")))

-- The rounds of the loop from the second on, which write a comma first.
unfoldable pub more_to_json : List ConfigDiagnostic → Bytes
more_to_json [] = []
more_to_json (d ∷ ds) = b',' ∷ (diagnostic_to_json d ++ more_to_json ds)

items_to_json : List ConfigDiagnostic → Bytes
items_to_json [] = []
items_to_json (d ∷ ds) = diagnostic_to_json d ++ more_to_json ds

unfoldable pub diagnostics_to_json : List ConfigDiagnostic → Bytes
unfolding items_to_json
diagnostics_to_json diagnostics = b'[' ∷ (items_to_json diagnostics ++ (b']' ∷ []))
