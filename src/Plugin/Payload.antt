-- ===== src/Plugin/Payload.antt =====
-- `parse_register_payload` and `parse_override_payload` of src/dprint_plugin.cpp.
use dprint_clang_format.Base.{
  if◌then◌else◌, Bytes, text, is_empty, Bool, true, false, Option, none, some, List, [], ◌∷◌,
}
use dprint_clang_format.Plugin.Platform.{Platform, Expected, parsed, failed}
use dprint_clang_format.Plugin.Escape.{ConfigDiagnostic}
use dprint_clang_format.Plugin.Options.{diagnostic}

-- The objects that the function fills, the diagnostics, and whether it returns true.
pub record Registration (P : Platform) : Type 0 where
  pub plugin : P.Object
  pub global : P.Object
  pub diagnostics : List ConfigDiagnostic
  pub accepted : Bool

module _ (P : Platform) where
  or_empty : Option P.Object → P.Object
  or_empty none = P.empty
  or_empty (some object) = object

  missing_plugin : Option P.Object → List ConfigDiagnostic
  missing_plugin none = diagnostic (text "plugin") (text "Missing plugin config object") ∷ []
  missing_plugin (some object) = []

  refused : ConfigDiagnostic → Registration P
  refused d = record { plugin = P.empty; global = P.empty; diagnostics = d ∷ []; accepted = false }

  registration_of_root : Option P.Object → Registration P
  unfolding refused or_empty missing_plugin
  registration_of_root none =
      refused (diagnostic (text "clangFormat") (text "Expected a config object"))
  registration_of_root (some root) = record {
    plugin = or_empty (P.get_object root (text "plugin"));
    global = or_empty (P.get_object root (text "global"));
    diagnostics = missing_plugin (P.get_object root (text "plugin"));
    accepted = true;
  }

  registration_of : Expected P.Value → Registration P
  unfolding registration_of_root refused
  registration_of (failed message) = refused (diagnostic (text "clangFormat") message)
  registration_of (parsed value) = registration_of_root (P.get_as_object value)

  -- Called with two empty objects and no diagnostics.
  unfoldable pub parse_register_payload : Bytes → Registration P
  unfolding registration_of
  parse_register_payload json = registration_of (P.parse json)

  override_of : Expected P.Value → Option P.Object
  override_of (failed message) = none
  override_of (parsed value) = P.get_as_object value

  -- The object that the function fills, or `none` where it returns false. Its caller drops the
  -- diagnostics.
  unfoldable pub parse_override_payload : Bytes → Option P.Object
  unfolding override_of
  parse_override_payload json = if is_empty json then some P.empty else override_of (P.parse json)
