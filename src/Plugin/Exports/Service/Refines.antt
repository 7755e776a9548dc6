-- ===== src/Plugin/Exports/Service/Refines.antt =====
-- The exported functions of src/dprint_plugin.cpp beside what Plugin.Exports.Service promises.
use dprint_clang_format.Base.{
  if◌then◌else◌, length, ◌%◌, ◌^◌, Bool, true, false, ◌≡◌, refl, ap, ◌∙◌, fun_ext, ℕ, Option, List,
  [], ◌∷◌, inl, inr, Bool-cases, ◌==◌,
}
use dprint_clang_format.Plugin.Platform.{Platform}
use mathlib.Core.Path.{ap₂}
use dprint_clang_format.Plugin.State.{
  take_shared_string, set_shared_string, State, RegisteredConfig, initial_state,
}
use dprint_clang_format.Plugin.Format.{format_inner, normalize_file_path, style_for_format}
use dprint_clang_format.Plugin.Format.Outcome.{
  Verdict, unchanged, changed, rejected, report, fresh, cleared, verdict, verdict-judge,
  format_inner-report,
}
use dprint_clang_format.Plugin.Exports.{
  plugin_version_4, get_shared_bytes_ptr, clear_shared_bytes, get_plugin_info, get_license_text,
  register_config, release_config, get_config_diagnostics, get_resolved_config,
  get_config_file_matching, set_file_path, set_override_config, format, format_range,
  get_formatted_text, get_error_text, check_config_updates, payload_entry,
}
use dprint_clang_format.Plugin.Exports.Register.{find-register, payload_entry-id}
use dprint_clang_format.Plugin.Exports.Service.{
  void, asks_version, reads, clears, writes, asks_info, asks_license, registers, releases,
  asks_diagnostics, asks_options, asks_matching, sets_path, sets_override, formats, formats_range,
  asks_text, asks_error, asks_updates, Call, Answer, call, View, empty_view, serve, run, promised,
  answered, tell_verdict, judged,
}
use dprint_clang_format.Plugin.Registry.{find_config}
use dprint_clang_format.Plugin.Registry.Table.{
  UniqueIds, UniqueIds-upsert, UniqueIds-erase, find-erase,
}

module _ (P : Platform) where
  abbrev pub view : State P → View P
  view s = record {
    shared = s.shared_bytes;
    configs = λ j. find_config j s.registered_configs;
    file = s.file_path;
    override_json = s.override_config_json;
    new_text = s.formatted_text;
    message = s.error_text;
  }

  -- What the code gives is what is promised.
  abbrev seen : Answer × State P → Answer × View P
  seen (a, s) = (a, view s)

  seen-report :
      (v : Verdict) (s : State P)
      → seen (answered P (report v (fresh P s))) ≡ tell_verdict P v (view s)
  seen-report unchanged s = refl
  seen-report (changed result) s = refl
  seen-report (rejected why) s = refl

  same_verdict :
      (s : State P) (id from to : ℕ)
      → verdict P (cleared P s) id s.shared_bytes from to ≡ judged P (view s) id from to
  unfolding style_for_format
  same_verdict s id from to = verdict-judge P (cleared P s) id s.shared_bytes from to

  seen-format :
      (s : State P) (id from to : ℕ) (has_range : Bool)
      → seen (answered P (format_inner P s id from to has_range))
        ≡ tell_verdict P
            (judged P
              (view s)
              id
              (if has_range then from else 0)
              (if has_range then to else length s.shared_bytes % 2 ^ 32))
            (view s)
  seen-format s id from to has_range =
      let start = if has_range then from else 0 in
      let end = if has_range then to else length s.shared_bytes % 2 ^ 32 in
      ap (λ (r : ℕ × State P). seen (answered P r)) (format_inner-report P s id from to has_range)
      ∙ seen-report (verdict P (cleared P s) id s.shared_bytes start end) s
      ∙ ap (λ (v : Verdict). tell_verdict P v (view s)) (same_verdict s id start end)

  call-serve :
      (c : Call) (s : State P)
      → UniqueIds s.registered_configs
      → seen (call P c s) ≡ serve P c (view s)
  unfolding call serve plugin_version_4 get_shared_bytes_ptr clear_shared_bytes get_plugin_info
      get_license_text get_config_diagnostics get_resolved_config get_config_file_matching
      set_file_path normalize_file_path set_override_config get_formatted_text get_error_text
      check_config_updates take_shared_string set_shared_string format format_range register_config
      release_config
  call-serve asks_version s u = refl
  call-serve reads s u = refl
  call-serve (clears size) s u = refl
  call-serve (writes bytes) s u = elim (Bool-cases (length bytes == length s.shared_bytes)) [
    | inl e ↦ rw e
    | inr e ↦ rw e
  ]
  call-serve asks_info s u = refl
  call-serve asks_license s u = refl
  call-serve (registers id) s u =
      ap
        (λ (f : ℕ → Option (RegisteredConfig P)).
          (void, record (view s) { shared = []; configs = f }))
        (fun_ext (λ j. find-register P id j s))
  call-serve (releases id) s u =
      ap (λ (f : ℕ → Option (RegisteredConfig P)). (void, record (view s) { configs = f }))
        (fun_ext (λ j. find-erase id j s.registered_configs u))
  call-serve (asks_diagnostics id) s u = refl
  call-serve (asks_options id) s u = refl
  call-serve (asks_matching id) s u = refl
  call-serve sets_path s u = refl
  call-serve sets_override s u = refl
  call-serve (formats id) s u = seen-format s id 0 0 false
  call-serve (formats_range id from to) s u = seen-format s id from to true
  call-serve asks_text s u = refl
  call-serve asks_error s u = refl
  call-serve asks_updates s u = refl

  report-UniqueIds :
      (v : Verdict) (s : State P)
      → UniqueIds s.registered_configs
      → UniqueIds (report v (fresh P s)).1.registered_configs
  report-UniqueIds unchanged s u = u
  report-UniqueIds (changed result) s u = u
  report-UniqueIds (rejected why) s u = u

  format_inner-UniqueIds :
      (s : State P) (id from to : ℕ) (has_range : Bool)
      → UniqueIds s.registered_configs
      → UniqueIds (format_inner P s id from to has_range).1.registered_configs
  format_inner-UniqueIds s id from to has_range u = rw format_inner-report (report-UniqueIds _ s u)

  call-UniqueIds :
      (c : Call) (s : State P)
      → UniqueIds s.registered_configs
      → UniqueIds (call P c s).1.registered_configs
  unfolding call clear_shared_bytes get_plugin_info get_license_text get_config_diagnostics
      get_resolved_config get_config_file_matching set_file_path normalize_file_path
      set_override_config get_formatted_text get_error_text check_config_updates take_shared_string
      set_shared_string format format_range register_config release_config
  call-UniqueIds asks_version s u = u
  call-UniqueIds reads s u = u
  call-UniqueIds (clears size) s u = u
  call-UniqueIds (writes bytes) s u = elim (Bool-cases (length bytes == length s.shared_bytes)) [
    | inl e ↦ rw e u
    | inr e ↦ rw e u
  ]
  call-UniqueIds asks_info s u = u
  call-UniqueIds asks_license s u = u
  call-UniqueIds (registers id) s u =
      UniqueIds-upsert id (payload_entry P id s.shared_bytes) s.registered_configs
        (payload_entry-id P id s.shared_bytes) u
  call-UniqueIds (releases id) s u = UniqueIds-erase id s.registered_configs u
  call-UniqueIds (asks_diagnostics id) s u = u
  call-UniqueIds (asks_options id) s u = u
  call-UniqueIds (asks_matching id) s u = u
  call-UniqueIds sets_path s u = u
  call-UniqueIds sets_override s u = u
  call-UniqueIds (formats id) s u = format_inner-UniqueIds s id 0 0 false u
  call-UniqueIds (formats_range id from to) s u = format_inner-UniqueIds s id from to true u
  call-UniqueIds asks_text s u = u
  call-UniqueIds asks_error s u = u
  call-UniqueIds asks_updates s u = u

  run-served :
      (calls : List Call) (s : State P)
      → UniqueIds s.registered_configs
      → (run P calls s).0 ≡ (promised P calls (view s)).0
  unfolding run promised
  run-served [] s u = refl
  run-served (c ∷ calls) s u =
      let kept = call-serve c s u in
      ap₂ (λ (a : Answer) (rest : List Answer). a ∷ rest) (ap (λ (r : Answer × View P). r.0) kept)
        (run-served calls (call P c s).1 (call-UniqueIds c s u)
          ∙ ap (λ (r : Answer × View P). (promised P calls r.1).0) kept)

  -- Whatever dprint calls, in whatever order, beginning where the plugin is loaded: the exported
  -- functions answer as the plugin does that keeps a map from ids to configurations in place of the
  -- table, forgetting its order.
  pub run-promised :
      (calls : List Call) → (run P calls (initial_state P)).0 ≡ (promised P calls (empty_view P)).0
  unfolding initial_state find_config
  run-promised calls = run-served calls (initial_state P) tt
