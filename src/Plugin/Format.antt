-- ===== src/Plugin/Format.antt =====
-- `normalize_file_path`, `style_for_format` and `format_inner` of src/dprint_plugin.cpp.
pub mod Outcome
pub mod Style
use dprint_clang_format.Base.{
  ltb, ◌==◌, if◌then◌else◌, length, Bytes, text, same, is_empty, ℕ, ◌-◌, ◌%◌, ◌^◌, String, Bool,
  ◌||◌, Option, none, some, List, [], ◌∷◌,
}
use dprint_clang_format.Plugin.Platform.{Platform, Range}
use dprint_clang_format.Plugin.State.{RegisteredConfig, State, take_shared_string}
use dprint_clang_format.Plugin.Registry.{find_config}
use dprint_clang_format.Plugin.Resolve.{ResolveResult, resolve_format_style}
use dprint_clang_format.Plugin.Payload.{parse_override_payload}

-- The loop of `normalize_file_path`.
unfoldable pub normalize : Bytes → Bytes
normalize [] = []
normalize (ch ∷ path) = (if ch == b'\\' then b'/' else ch) ∷ normalize path

module _ (P : Platform) where
  unfoldable pub normalize_file_path : State P → State P
  unfolding normalize
  normalize_file_path s = record s { file_path = normalize s.file_path }

  -- The override that counts: an empty text is none, and so is one that is refused.
  pub override_options : Bytes → Option P.Object
  override_options json = if is_empty json then none else parse_override_payload P json

  with_language : P.Style → Bytes → Bytes → P.Style
  with_language style path code =
      if is_empty path then style else P.set_language style (P.guess_language path code)

  unfoldable pub chosen_style : RegisteredConfig P → ResolveResult P → Bytes → Bytes → P.Style
  unfolding with_language
  chosen_style entry resolved path code =
      if resolved.valid then with_language resolved.style path code else entry.style

  unfoldable pub style_for_format : State P → RegisteredConfig P → Bytes → P.Style
  unfolding override_options chosen_style
  style_for_format s entry code =
      chosen_style entry
        (resolve_format_style P entry.plugin entry.global (override_options s.override_config_json))
        s.file_path code

  abbrev no_override : State P → State P
  no_override s = record s { override_config_json = [] }

  abbrev with_error : State P → String → State P
  with_error s message = record s { error_text = text message }

  -- From the last `applyAllReplacements` on.
  finish : State P → Bytes → Option Bytes → ℕ × State P
  finish s input none = (2, with_error s "clang-format failed to apply replacements")
  finish s input (some result) =
      if same result input then (0, s) else (1, record s { formatted_text = result })

  -- From the first `applyAllReplacements` on.
  reformat_sorted :
      State P → P.Style → Bytes → List Range → Bytes → P.Replacements → Option Bytes → ℕ × State P
  unfolding finish
  reformat_sorted s style input ranges name replacements none =
      (2, with_error s "clang-format failed to apply replacements")
  reformat_sorted s style input ranges name replacements (some changed_input) =
      let ranges' = P.ranges_after_replacements replacements ranges in
      let format_replacements = P.reformat style changed_input ranges' name in
      finish s input (P.apply_all_replacements input (P.merge replacements format_replacements))

  -- From the call of `sortIncludes` on.
  unfoldable pub run_format : State P → P.Style → Bytes → ℕ → ℕ → ℕ × State P
  unfolding reformat_sorted
  run_format s style input range_start range_end =
      let name = if is_empty s.file_path then text "<stdin>" else s.file_path in
      let ranges = record { offset = range_start; len = range_end - range_start } ∷ [] in
      let replacements = P.sort_includes style input ranges name in
      reformat_sorted s style input ranges name replacements
        (P.apply_all_replacements input replacements)

  -- From the lookup of the configuration on.
  format_entry : State P → Option (RegisteredConfig P) → Bytes → ℕ → ℕ → ℕ × State P
  format_entry s none input range_start range_end =
      (2, with_error (no_override s) "unknown config id")
  format_entry s (some entry) input range_start range_end =
      run_format (no_override s) (style_for_format s entry input) input range_start range_end

  -- From the test of the range on.
  unfoldable pub format_checked : State P → ℕ → Bytes → ℕ → ℕ → ℕ × State P
  unfolding format_entry
  format_checked s config_id input range_start range_end =
      if ltb range_end range_start || ltb (length input) range_end
      then (2, with_error (no_override s) "invalid format range")
      else format_entry s (find_config config_id s.registered_configs) input range_start range_end

  unfoldable pub format_inner : State P → ℕ → ℕ → ℕ → Bool → ℕ × State P
  format_inner s config_id range_start range_end has_range =
      let (input, s') = take_shared_string P s in
      let cleared = record s' { formatted_text = []; error_text = [] } in
      if has_range
      then format_checked cleared config_id input range_start range_end
      else format_checked cleared config_id input 0 (length input % 2 ^ 32)
