-- ===== src/Tests/Formats.antt =====
-- Calls of the functions that src/dprint_plugin.cpp exports, one after another.
use dprint_clang_format.Base.{
  or_else, Bytes, replicate, ℕ, List, arith, if◌then◌else◌, length, same, ◌≢◌, some, [], ◌∷◌, refl,
  text, true, ◌≡◌, ◌%◌, ◌^◌,
}
use dprint_clang_format.Plugin.Options.Merge.{global_option}
use dprint_clang_format.Tests.Toy.{toy-IsJson, wide, toy}
use dprint_clang_format.Plugin.Exports.{
  get_formatted_text, get_resolved_config, get_shared_bytes_ptr, format_range, release_config,
  clear_shared_bytes, format, payload_entry, register_config,
}
use dprint_clang_format.Plugin.Exports.Service.{Answer, call, Call, empty_view, promised, run}
use dprint_clang_format.Plugin.Registry.{erase_config, upsert_config, find_config}
use dprint_clang_format.Plugin.State.{
  set_shared_string, RegisteredConfig, take_shared_string, State, initial_state,
}
use dprint_clang_format.Plugin.Exports.Register.{find-register}
use dprint_clang_format.Plugin.Options.{
  merge_global_options, merge_object_options, parse_bool_value, parse_number_value,
  reject_filesystem_dependent_style, take_number, take_tabs,
}
use dprint_clang_format.Plugin.Resolve.{
  gather, read_style, resolve_options, resolve_registered_config, resolve_format_style,
}
use dprint_clang_format.Plugin.Exports.Later.{format-Reach, stored_verdict, release-format}
use dprint_clang_format.Plugin.Exports.Service.Refines.{run-promised}
use dprint_clang_format.Plugin.Exports.Session.{
  IsSound, Reach, Reach-IsSound, clears, formats, host_writes, next, registers, start,
}
use dprint_clang_format.Plugin.Format.{format_checked, format_inner, run_format, style_for_format}
use dprint_clang_format.Plugin.Format.Outcome.{cleared, format_inner-report, fresh, report, verdict}
use dprint_clang_format.Plugin.Format.Style.{guessed, style_for_format-override}
use dprint_clang_format.Plugin.Payload.{parse_override_payload, parse_register_payload}

-- One configuration, and a text to format.
abbrev ready : State toy
ready = record (initial_state toy) {
  shared_bytes = text "int  x;";
  registered_configs = payload_entry toy 7 (text "full") ∷ [];
  file_path = text "a.h";
}

format_inner-report_example :
    format_inner toy ready 7 4 6 true
    ≡ report (verdict toy (cleared toy ready) 7 (text "int  x;") 4 6) (fresh toy ready)
unfolding initial_state
format_inner-report_example = format_inner-report toy ready 7 4 6 true

-- What that comes to: the toy formatter drops the spaces.
ready_formatted : (format toy 7 ready).0 ≡ 1
unfolding format format_inner format_checked run_format take_shared_string initial_state text same
    find_config payload_entry parse_register_payload resolve_registered_config
ready_formatted = refl

full_accepted : (parse_register_payload toy (text "full")).accepted ≡ true
unfolding parse_register_payload text same
full_accepted = refl

abbrev overridden : State toy
overridden = record ready { override_config_json = text "wide" }

wide_accepted : parse_override_payload toy overridden.override_config_json ≡ some wide
unfolding parse_override_payload text same
wide_accepted = refl

some_override : overridden.override_config_json ≢ []
unfolding text
some_override = λ e. cc

style_for_format-override_example :
    let entry = payload_entry toy 7 (text "full") in
    let r = resolve_format_style toy entry.plugin entry.global (some wide) in
    (style_for_format toy overridden entry (text "int  x;") ≡ (
      if r.valid then guessed toy r.style overridden.file_path (text "int  x;") else entry.style))
    × ((k : Bytes)
        → toy.find r.resolved k
          ≡ or_else
              (toy.find wide k)
              (or_else (toy.find entry.plugin k) (global_option toy entry.global k)))
style_for_format-override_example =
    style_for_format-override toy toy-IsJson overridden (payload_entry toy 7 (text "full"))
      (text "int  x;") wide some_override wide_accepted

-- dprint makes room, writes a payload, registers it, writes a text in the same way and formats it.
abbrev room : State toy
room = (clear_shared_bytes toy 4 (initial_state toy)).1

abbrev told : State toy
told = record room { shared_bytes = text "full" }

abbrev registered : State toy
registered = register_config toy 7 told

payload_fits : length (text "full") ≡ length room.shared_bytes
unfolding clear_shared_bytes text
payload_fits = refl

registered-Reach : Reach toy registered
registered-Reach =
    next
      (next (next start (clears (initial_state toy) 4))
        (host_writes room (text "full") payload_fits))
      (registers told 7)

abbrev stored : RegisteredConfig toy
stored = payload_entry toy 7 (text "full")

stored_found : find_config 7 registered.registered_configs ≡ some stored
stored_found = find-register toy 7 7 told

stored_valid : stored.valid ≡ true
unfolding payload_entry parse_register_payload resolve_registered_config resolve_format_style gather
    resolve_options read_style merge_global_options merge_object_options take_number take_tabs text
    same parse_number_value parse_bool_value reject_filesystem_dependent_style
stored_valid = refl

stored_quiet : registered.override_config_json ≡ []
unfolding register_config take_shared_string clear_shared_bytes initial_state
stored_quiet = refl

two_bytes : length (text "x;") ≡ 2
unfolding text
two_bytes = refl

session : Reach toy (format toy 7 registered).1
session = next registered-Reach (formats registered 7)

Reach-IsSound_example : IsSound toy (format toy 7 registered).1
Reach-IsSound_example = Reach-IsSound toy session

-- dprint has written a text.
abbrev roomy : State toy
roomy = (clear_shared_bytes toy 7 registered).1

abbrev asked : State toy
asked = record roomy { shared_bytes = text "int  x;" }

text_fits : length (text "int  x;") ≡ length roomy.shared_bytes
unfolding clear_shared_bytes text
text_fits = refl

asked-Reach : Reach toy asked
asked-Reach =
    next (next registered-Reach (clears registered 7))
      (host_writes roomy (text "int  x;") text_fits)

asked_found : find_config 7 asked.registered_configs ≡ some stored
unfolding clear_shared_bytes
asked_found = stored_found

asked_quiet : asked.override_config_json ≡ []
unfolding clear_shared_bytes
asked_quiet = stored_quiet

format-Reach_example :
    (format toy 7 asked
      ≡ report
          (stored_verdict toy asked stored 0 (length asked.shared_bytes % 2 ^ 32))
          (fresh toy asked))
    × (format_range toy 7 4 6 asked
        ≡ report (stored_verdict toy asked stored 4 6) (fresh toy asked))
format-Reach_example =
    format-Reach toy asked-Reach 7 4 6 stored asked_found stored_valid asked_quiet

release-format_example :
    let t = record (release_config toy 7 registered) { shared_bytes = text "x;" } in
    let failed : ℕ × State toy =
      (2, record (fresh toy t) { error_text = text "unknown config id" }) in
    (format_range toy 7 0 1 t ≡ failed) × (format toy 7 t ≡ failed)
release-format_example =
    release-format toy registered-Reach 7 0 1 (text "x;") (omega arith) (omega (arith, two_bytes))

abbrev calls : List Call
calls =
    Call.clears 4
    ∷ (Call.writes (text "full")
        ∷ (Call.registers 7
            ∷ (Call.clears 7
                ∷ (Call.writes (text "int  x;")
                    ∷ (Call.formats 7
                        ∷ (Call.asks_text
                            ∷ (Call.reads ∷ (Call.releases 7 ∷ (Call.asks_options 7 ∷ [])))))))))

run-promised_example :
    (run toy calls (initial_state toy)).0 ≡ (promised toy calls (empty_view toy)).0
run-promised_example = run-promised toy calls

-- What dprint is answered in these calls.
calls_answered :
    (run toy calls (initial_state toy)).0
    ≡ Answer.pointer (some (replicate 4 0))
      ∷ (Answer.void
          ∷ (Answer.void
              ∷ (Answer.pointer (some (replicate 7 0))
                  ∷ (Answer.void
                      ∷ (Answer.number 1
                          ∷ (Answer.number 5
                              ∷ (Answer.pointer (some (text "intx;"))
                                  ∷ (Answer.void ∷ (Answer.number 2 ∷ [])))))))))
unfolding run call initial_state clear_shared_bytes register_config release_config
    take_shared_string set_shared_string get_formatted_text get_shared_bytes_ptr get_resolved_config
    upsert_config erase_config find_config payload_entry parse_register_payload
    resolve_registered_config format format_inner format_checked run_format text same
calls_answered = refl
