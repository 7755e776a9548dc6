-- ===== src/Plugin/Platform.antt =====
-- What src/dprint_plugin.cpp takes from elsewhere: floating point, LLVM's JSON and string library,
-- Clang's formatter, and two constants of the build. None of it is in the repository.
use dprint_clang_format.Base.{
  if◌then◌else◌, Bytes, same, ℕ, ◌≡◌, Bool, true, Option, none, some, List, [], ◌∷◌,
}
use dprint_clang_format.Base.Int.{ℤ}
use dprint_clang_format.Runtime.Floats.{Floats}

-- `clang::tooling::Range`
pub record Range : Type 0 where
  pub offset : ℕ
  pub len : ℕ

-- `llvm::Expected<llvm::json::Value>`: a value, or the message of an error.
pub data Expected (A : Type 0) : Type 0 where
  parsed : A → Expected A
  failed : Bytes → Expected A

pub record Platform : Type 1 where
  pub floats : Floats
  -- `llvm::json::Value` and its readers.
  pub Value : Type 0
  pub Object : Type 0
  pub get_as_null : Value → Bool
  pub get_as_boolean : Value → Option Bool
  pub get_as_number : Value → Option floats.Double
  pub get_as_string : Value → Option Bytes
  pub get_as_object : Value → Option Object
  pub of_string : Bytes → Value
  pub of_int64 : ℤ → Value
  -- `llvm::json::Object`, a map: the entries are in the order in which a loop visits them.
  pub empty : Object
  pub is_empty_object : Object → Bool
  pub find : Object → Bytes → Option Value
  pub get_object : Object → Bytes → Option Object
  pub put : Object → Bytes → Value → Object
  pub entries : Object → List (Bytes × Value)
  -- What `stream << Value(object)` writes, and `llvm::json::parse`.
  pub print : Object → Bytes
  pub parse : Bytes → Expected Value
  -- `llvm::StringRef::equals_insensitive`
  pub equals_insensitive : Bytes → Bytes → Bool
  -- `clang::format`
  pub Style : Type 0
  pub Language : Type 0
  -- With C++ for its language, which is the default of `getLLVMStyle`.
  pub get_llvm_style : Style
  -- The style afterwards, and the message of the error if there is one.
  pub parse_configuration : Bytes → Style → Style × Option Bytes
  pub guess_language : Bytes → Bytes → Language
  pub set_language : Style → Language → Style
  pub Replacements : Type 0
  pub sort_includes : Style → Bytes → List Range → Bytes → Replacements
  pub reformat : Style → Bytes → List Range → Bytes → Replacements
  -- `clang::tooling`
  pub apply_all_replacements : Bytes → Replacements → Option Bytes
  pub ranges_after_replacements : Replacements → List Range → List Range
  pub merge : Replacements → Replacements → Replacements
  -- DPRINT_PLUGIN_VERSION and DPRINT_PLUGIN_SCHEMA_BASE_URL.
  pub plugin_version : Bytes
  pub schema_base_url : Bytes

-- The first entry of a key.
abbrev pub lookup {ℓ} : {V : Type ℓ} → Bytes → List (Bytes × V) → Option V
lookup k [] = none
lookup k ((j, v) ∷ es) = if same j k then some v else lookup k es

abbrev pub NodupKeys {ℓ} : {V : Type ℓ} → List (Bytes × V) → Type ℓ
NodupKeys [] = Unit
NodupKeys ((j, v) ∷ es) = (lookup j es ≡ none) × NodupKeys es

-- An object behaves as a map.
pub record IsJson (P : Platform) : Type 0 where
  pub find-empty : (k : Bytes) → P.find P.empty k ≡ none
  pub find-put :
      (o : P.Object) (k j : Bytes) (v : P.Value)
      → P.find (P.put o k v) j ≡ (if same k j then some v else P.find o j)
  pub lookup-entries : (o : P.Object) (k : Bytes) → lookup k (P.entries o) ≡ P.find o k
  pub entries-NodupKeys : (o : P.Object) → NodupKeys (P.entries o)
  pub is_empty-find : (o : P.Object) (k : Bytes) → P.is_empty_object o ≡ true → P.find o k ≡ none
  pub find-is_empty :
      (o : P.Object) → ((k : Bytes) → P.find o k ≡ none) → P.is_empty_object o ≡ true
