-- ===== src/Plugin/Exports/Info.antt =====
-- What get_plugin_info of src/dprint_plugin.cpp tells dprint.
use dprint_clang_format.Plugin.Escape.Members.{
  read_object-write, IsPlainMember, is_plain, read_object, IsPlain, Json, string, strings,
  write_object,
}
use dprint_clang_format.Base.{
  all_of, all_of-append, All, ap, ◌∙◌, some, arith, Bytes, text, ◌≡◌, refl, List, [], ◌∷◌, ◌++◌,
}
use dprint_clang_format.Plugin.Platform.{Platform}
use dprint_clang_format.Plugin.State.{State, set_shared_string}
use dprint_clang_format.Plugin.Exports.{get_plugin_info}

abbrev pub file_extensions : List Bytes
file_extensions =
    text "c"
    ∷ text "cc"
    ∷ text "cpp"
    ∷ text "cxx"
    ∷ text "h"
    ∷ text "hh"
    ∷ text "hpp"
    ∷ text "hxx"
    ∷ text "m"
    ∷ text "mm"
    ∷ []

module _ (P : Platform) where
  abbrev pub schema_url : Bytes
  schema_url = P.schema_base_url ++ (text "/" ++ (P.plugin_version ++ text "/schema.json"))

  abbrev other_members : List (Bytes × Json)
  other_members =
      (text "version", string P.plugin_version)
      ∷ (text "configKey", string (text "clangFormat"))
      ∷ (text "fileExtensions", strings file_extensions)
      ∷ (text "helpUrl", string (text "https://github.com/sargunv/dprint-clang-format"))
      ∷ (text "configSchemaUrl", string schema_url)
      ∷ (
        text "updateUrl",
        string (text "https://plugins.dprint.dev/sargunv/dprint-clang-format/latest.json"),
      )
      ∷ []

  -- The plugin as it describes itself.
  abbrev pub info : List (Bytes × Json)
  info = (text "name", string (text "dprint-plugin-clang-format")) ∷ other_members

  info_written :
      (s : State P)
      → ((get_plugin_info P s).1).shared_bytes
        ≡ write_object (text "name", string (text "dprint-plugin-clang-format")) other_members
  unfolding get_plugin_info set_shared_string text
  info_written s = refl

  schema_url-IsPlain : IsPlain P.plugin_version → IsPlain P.schema_base_url → IsPlain schema_url
  unfolding all_of text
  schema_url-IsPlain v b =
      all_of-append is_plain P.schema_base_url
        (text "/" ++ (P.plugin_version ++ text "/schema.json")) b
        (all_of-append is_plain P.plugin_version (text "/schema.json") v refl)

  info-IsPlain : IsPlain P.plugin_version → IsPlain P.schema_base_url → All (IsPlainMember 11) info
  unfolding all_of text
  info-IsPlain v b = (
    (refl, refl),
    (
      (refl, v),
      (
        (refl, refl),
        (
          (
            refl,
            (
              (refl, (refl, (refl, (refl, (refl, (refl, (refl, (refl, (refl, (refl, tt)))))))))),
              omega arith,
            ),
          ),
          ((refl, refl), ((refl, schema_url-IsPlain v b), ((refl, refl), tt))),
        ),
      ),
    ),
  )

  -- Read as JSON, the answer of get_plugin_info is an object with the plugin's name, version, key,
  -- extensions and addresses, where the version and the schemas' address, which the build gives, have no
  -- quotes, backslashes or control characters.
  pub read_object-get_plugin_info :
      (s : State P)
      → IsPlain P.plugin_version
      → IsPlain P.schema_base_url
      → read_object 11 7 ((get_plugin_info P s).1).shared_bytes ≡ some (info, [])
  read_object-get_plugin_info s v b =
      ap (read_object 11 7) (info_written s)
      ∙ read_object-write 11 7 (text "name", string (text "dprint-plugin-clang-format"))
          other_members (info-IsPlain v b) (omega arith)
