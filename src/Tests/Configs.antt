-- ===== src/Tests/Configs.antt =====
-- Configurations that src/dprint_plugin.cpp registers, resolves and forgets.
use dprint_clang_format.Base.{
  ◌⊎◌, same, text, String, ◌≡◌, refl, inl, true, false, none, [], ◌∷◌, ◌++◌, ◌↔◌, or_else,
}
use dprint_clang_format.Plugin.Options.{
  parse_bool_value, parse_number_value, reject_filesystem_dependent_style, merge_global_options,
  merge_object_options, take_number, take_tabs,
}
use dprint_clang_format.Plugin.Escape.{diagnostics_to_json}
use dprint_clang_format.Plugin.Exports.{payload_entry, register_config, release_config}
use dprint_clang_format.Plugin.Exports.Payloads.{payload_entry-refused}
use dprint_clang_format.Plugin.Exports.Register.{
  payload_entry-id, told-register, told-release, told_diagnostics, told_options,
}
use dprint_clang_format.Plugin.Format.{style_for_format}
use dprint_clang_format.Plugin.Format.Style.{guessed}
use dprint_clang_format.Plugin.Options.Merge.{find-merge_global, global_option}
use dprint_clang_format.Plugin.Options.Reject.{NeedsFiles, file_diagnostic}
use dprint_clang_format.Plugin.Payload.{parse_register_payload}
use dprint_clang_format.Plugin.Registry.Table.{UniqueIds}
use dprint_clang_format.Plugin.Resolve.{gather, read_style, resolve_format_style, resolve_options}
use dprint_clang_format.Plugin.Resolve.Precedence.{find-resolved}
use dprint_clang_format.Plugin.Resolve.Validity.{IsClean, IsRead, resolve-NeedsFiles, resolve-valid}
use dprint_clang_format.Tests.Toy.{toy, toy-IsJson, styled, wide, from_file}
use dprint_clang_format.Plugin.State.{State, initial_state}
use dprint_clang_format.Plugin.Registry.{find_config}

find-resolved_example :
    (toy.find (resolve_format_style toy styled wide none).resolved (text "ColumnLimit")
      ≡ or_else none (
          or_else
            (toy.find styled (text "ColumnLimit"))
            (global_option toy wide (text "ColumnLimit"))))
find-resolved_example = find-resolved toy toy-IsJson styled wide none (text "ColumnLimit")

resolve-valid_example :
    let r = resolve_format_style toy styled wide none in
    ((r.valid ≡ true) ↔ IsClean toy r)
    × ((r.valid ≡ true) ↔ ((toy.is_empty_object r.resolved ≡ true) ⊎ IsRead toy r))
resolve-valid_example = resolve-valid toy styled wide none

file_style-NeedsFiles : NeedsFiles toy (resolve_format_style toy from_file wide none).resolved
unfolding resolve_format_style gather resolve_options read_style merge_global_options
    merge_object_options take_number take_tabs text same parse_number_value parse_bool_value
    reject_filesystem_dependent_style
file_style-NeedsFiles = record {
  value = toy.of_string (text "FILE");
  name = text "FILE";
  found = refl;
  is_string = refl;
  is_file = inl refl;
}

resolve-NeedsFiles_example :
    let r = resolve_format_style toy from_file wide none in
    (r.valid ≡ false)
    × (r.diagnostics ≡ (gather toy from_file wide none).1 ++ (file_diagnostic ∷ []))
resolve-NeedsFiles_example =
    resolve-NeedsFiles toy toy-IsJson from_file wide none file_style-NeedsFiles

find-merge_global_example :
    toy.find (merge_global_options toy wide (styled, [])).0 (text "UseTab")
    ≡ or_else (toy.find styled (text "UseTab")) (global_option toy wide (text "UseTab"))
find-merge_global_example = find-merge_global toy toy-IsJson wide (styled, []) (text "UseTab")

-- dprint has written a payload.
abbrev told : String → State toy
told payload = record (initial_state toy) { shared_bytes = text payload }

told-register_example :
    let entry = payload_entry toy 7 (text "full") in
    let s' = register_config toy 7 (told "full") in
    (told_diagnostics toy 7 s' ≡ entry.diagnostics_json)
    × (told_options toy 7 s' ≡ entry.resolved_json)
told-register_example = told-register toy 7 7 (told "full")

-- Two configurations, one of them refused.
abbrev two_configs : State toy
two_configs = record (initial_state toy) {
  registered_configs = payload_entry toy 7 (text "full") ∷ (payload_entry toy 8 (text "bad") ∷ []);
}

two_configs-UniqueIds : UniqueIds two_configs.registered_configs
unfolding find_config
two_configs-UniqueIds =
    (rw (payload_entry-id toy 8 (text "bad"), payload_entry-id toy 7 (text "full")), (refl, tt))

told-release_example :
    let s' = release_config toy 7 two_configs in
    (told_diagnostics toy 7 s' ≡ text "[]") × (told_options toy 7 s' ≡ text "{}")
told-release_example = told-release toy 7 7 two_configs two_configs-UniqueIds

bad_payload : (parse_register_payload toy (text "bad")).accepted ≡ false
unfolding parse_register_payload text same
bad_payload = refl

payload_entry-refused_example :
    let s = two_configs in
    let entry = payload_entry toy 8 (text "bad") in
    (entry.valid ≡ false)
    × (entry.diagnostics_json
        ≡ diagnostics_to_json (parse_register_payload toy (text "bad")).diagnostics)
    × (style_for_format toy s entry (text "int x;")
        ≡ guessed toy toy.get_llvm_style s.file_path (text "int x;"))
unfolding initial_state
payload_entry-refused_example =
    payload_entry-refused toy toy-IsJson two_configs 8 (text "bad") (text "int x;") bad_payload refl
