-- ===== src/Plugin/Exports.antt =====
-- The functions that src/dprint_plugin.cpp exports to dprint.
pub mod Info
pub mod Register
pub mod Payloads
pub mod Session
pub mod Later
pub mod Service
use dprint_clang_format.Base.{
  if◌then◌else◌, replicate, Bytes, text, is_empty, ℕ, true, false, Option, none, some, [], ◌++◌,
}
use dprint_clang_format.Plugin.Platform.{Platform}
use dprint_clang_format.Plugin.Escape.{diagnostics_to_json}
use dprint_clang_format.Plugin.State.{
  RegisteredConfig, State, default_config, take_shared_string, set_shared_string,
}
use dprint_clang_format.Plugin.Registry.{find_config, upsert_config, erase_config}
use dprint_clang_format.Plugin.Resolve.{resolve_registered_config}
use dprint_clang_format.Plugin.Payload.{Registration, parse_register_payload}
use dprint_clang_format.Plugin.Format.{normalize_file_path, format_inner}

unfoldable pub plugin_version_4 : ℕ
plugin_version_4 = 4

abbrev plugin_name : Bytes
plugin_name = text "dprint-plugin-clang-format"

abbrev plugin_help_url : Bytes
plugin_help_url = text "https://github.com/sargunv/dprint-clang-format"

abbrev plugin_update_url : Bytes
plugin_update_url = text "https://plugins.dprint.dev/sargunv/dprint-clang-format/latest.json"

abbrev plugin_file_extensions_json : Bytes
plugin_file_extensions_json =
    text "[\"c\",\"cc\",\"cpp\",\"cxx\",\"h\",\"hh\",\"hpp\",\"hxx\",\"m\",\"mm\"]"

abbrev license_text : Bytes
license_text =
    text
      "Apache-2.0 WITH LLVM-exception\n\nSee https://github.com/sargunv/dprint-clang-format/blob/main/LICENSE\n"

module _ (P : Platform) where
  -- The address is null where there is no byte; otherwise the bytes stand for it.
  shared_pointer : Bytes → Option Bytes
  shared_pointer bytes = if is_empty bytes then none else some bytes

  unfoldable pub get_shared_bytes_ptr : State P → Option Bytes
  unfolding shared_pointer
  get_shared_bytes_ptr s = shared_pointer s.shared_bytes

  unfoldable pub clear_shared_bytes : ℕ → State P → Option Bytes × State P
  unfolding shared_pointer
  clear_shared_bytes size s =
      let bytes = replicate size 0 in (shared_pointer bytes, record s { shared_bytes = bytes })

  plugin_config_schema_url : Bytes
  plugin_config_schema_url =
      P.schema_base_url ++ (text "/" ++ (P.plugin_version ++ text "/schema.json"))

  unfoldable pub get_plugin_info : State P → ℕ × State P
  unfolding plugin_config_schema_url
  get_plugin_info = set_shared_string P (
      text "{\"name\":\""
      ++ (plugin_name
          ++ (text "\",\"version\":\""
              ++ (P.plugin_version
                  ++ (text "\",\"configKey\":\"clangFormat\",\"fileExtensions\":"
                      ++ (plugin_file_extensions_json
                          ++ (text ",\"helpUrl\":\""
                              ++ (plugin_help_url
                                  ++ (text "\",\"configSchemaUrl\":\""
                                      ++ (plugin_config_schema_url
                                          ++ (text "\",\"updateUrl\":\""
                                              ++ (plugin_update_url ++ text "\"}"))))))))))))

  unfoldable pub get_license_text : State P → ℕ × State P
  get_license_text = set_shared_string P license_text

  -- The entry that `register_config` makes of a payload.
  registered_entry : ℕ → Registration P → RegisteredConfig P
  registered_entry config_id r =
      if r.accepted
      then resolve_registered_config P config_id r.plugin r.global
      else record (default_config P) {
        id = config_id;
        diagnostics_json = diagnostics_to_json r.diagnostics;
        valid = false;
      }

  unfoldable pub payload_entry : ℕ → Bytes → RegisteredConfig P
  unfolding registered_entry
  payload_entry config_id payload = registered_entry config_id (parse_register_payload P payload)

  unfoldable pub register_config : ℕ → State P → State P
  register_config config_id s =
      let (payload, s') = take_shared_string P s in
      record s' {
        registered_configs =
            upsert_config config_id (payload_entry config_id payload) s'.registered_configs;
      }

  unfoldable pub release_config : ℕ → State P → State P
  release_config config_id s = record s {
    registered_configs = erase_config config_id s.registered_configs;
  }

  stored_diagnostics : Option (RegisteredConfig P) → Bytes
  stored_diagnostics none = text "[]"
  stored_diagnostics (some entry) = entry.diagnostics_json

  unfoldable pub get_config_diagnostics : ℕ → State P → ℕ × State P
  unfolding stored_diagnostics
  get_config_diagnostics config_id s =
      set_shared_string P (stored_diagnostics (find_config config_id s.registered_configs)) s

  stored_options : Option (RegisteredConfig P) → Bytes
  stored_options none = text "{}"
  stored_options (some entry) = entry.resolved_json

  unfoldable pub get_resolved_config : ℕ → State P → ℕ × State P
  unfolding stored_options
  get_resolved_config config_id s =
      set_shared_string P (stored_options (find_config config_id s.registered_configs)) s

  unfoldable pub get_config_file_matching : ℕ → State P → ℕ × State P
  get_config_file_matching config_id =
      set_shared_string P
        (text "{\"fileExtensions\":" ++ (plugin_file_extensions_json ++ text ",\"fileNames\":[]}"))

  unfoldable pub set_file_path : State P → State P
  set_file_path s =
      let (path, s') = take_shared_string P s in
      normalize_file_path P (record s' { file_path = path })

  unfoldable pub set_override_config : State P → State P
  set_override_config s =
      let (json, s') = take_shared_string P s in record s' { override_config_json = json }

  unfoldable pub format : ℕ → State P → ℕ × State P
  format config_id s = format_inner P s config_id 0 0 false

  unfoldable pub format_range : ℕ → ℕ → ℕ → State P → ℕ × State P
  format_range config_id range_start range_end s =
      format_inner P s config_id range_start range_end true

  -- The text is moved out, which leaves libc++'s string empty.
  unfoldable pub get_formatted_text : State P → ℕ × State P
  get_formatted_text s = set_shared_string P s.formatted_text (record s { formatted_text = [] })

  unfoldable pub get_error_text : State P → ℕ × State P
  get_error_text s = set_shared_string P s.error_text (record s { error_text = [] })

  unfoldable pub check_config_updates : State P → ℕ × State P
  check_config_updates = set_shared_string P (text "{\"kind\":\"ok\",\"data\":[]}")
