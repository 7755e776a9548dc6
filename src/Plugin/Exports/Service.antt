-- ===== src/Plugin/Exports/Service.antt =====
-- What the exported functions of src/dprint_plugin.cpp promise to dprint: the plugin with a map from ids
-- in place of the table, and the same calls on the code itself.
pub mod Refines
use dprint_clang_format.Base.{
  ℕ, ◌%◌, ◌^◌, Bytes, Option, none, some, List, [], ◌∷◌, length, if◌then◌else◌, ◌==◌, is_empty,
  replicate, text, false, true, ◌≡◌,
}
use dprint_clang_format.Plugin.Platform.{Platform}
use dprint_clang_format.Plugin.State.{RegisteredConfig, State, initial_state}
use dprint_clang_format.Plugin.Resolve.{resolve_format_style}
use dprint_clang_format.Plugin.Format.{normalize, override_options, chosen_style}
use dprint_clang_format.Plugin.Format.Outcome.{Verdict, unchanged, changed, rejected, judge}
use dprint_clang_format.Plugin.Exports.{
  plugin_version_4, get_shared_bytes_ptr, clear_shared_bytes, get_plugin_info, get_license_text,
  payload_entry, register_config, release_config, get_config_diagnostics, get_resolved_config,
  get_config_file_matching, set_file_path, set_override_config, format, format_range,
  get_formatted_text, get_error_text, check_config_updates, stored_diagnostics, stored_options,
}

-- A call of an exported function, or a write of dprint's to the shared bytes.
pub data Call : Type 0 where
  asks_version : Call
  reads : Call
  clears : ℕ → Call
  writes : Bytes → Call
  asks_info : Call
  asks_license : Call
  registers : ℕ → Call
  releases : ℕ → Call
  asks_diagnostics : ℕ → Call
  asks_options : ℕ → Call
  asks_matching : ℕ → Call
  sets_path : Call
  sets_override : Call
  formats : ℕ → Call
  formats_range : ℕ → ℕ → ℕ → Call
  asks_text : Call
  asks_error : Call
  asks_updates : Call

-- What the call returns; the bytes stand for a pointer to them.
pub data Answer : Type 0 where
  void : Answer
  number : ℕ → Answer
  pointer : Option Bytes → Answer

module _ (P : Platform) where
  abbrev pub answered : ℕ × State P → Answer × State P
  answered (n, s) = (number n, s)

  abbrev pointed : Option Bytes × State P → Answer × State P
  pointed (p, s) = (pointer p, s)

  -- The code. A write puts as many bytes as there are.
  unfoldable pub call : Call → State P → Answer × State P
  call asks_version s = (number plugin_version_4, s)
  call reads s = (pointer (get_shared_bytes_ptr P s), s)
  call (clears size) s = pointed (clear_shared_bytes P size s)
  call (writes bytes) s =
      if length bytes == length s.shared_bytes
      then (void, record s { shared_bytes = bytes })
      else (void, s)
  call asks_info s = answered (get_plugin_info P s)
  call asks_license s = answered (get_license_text P s)
  call (registers id) s = (void, register_config P id s)
  call (releases id) s = (void, release_config P id s)
  call (asks_diagnostics id) s = answered (get_config_diagnostics P id s)
  call (asks_options id) s = answered (get_resolved_config P id s)
  call (asks_matching id) s = answered (get_config_file_matching P id s)
  call sets_path s = (void, set_file_path P s)
  call sets_override s = (void, set_override_config P s)
  call (formats id) s = answered (format P id s)
  call (formats_range id from to) s = answered (format_range P id from to s)
  call asks_text s = answered (get_formatted_text P s)
  call asks_error s = answered (get_error_text P s)
  call asks_updates s = answered (check_config_updates P s)

  -- The plugin as dprint sees it.
  pub record View : Type 0 where
    pub shared : Bytes
    pub configs : ℕ → Option (RegisteredConfig P)
    pub file : Bytes
    pub override_json : Bytes
    pub new_text : Bytes
    pub message : Bytes

  abbrev pub empty_view : View
  empty_view = record {
    shared = [];
    configs = λ id. none;
    file = [];
    override_json = [];
    new_text = [];
    message = [];
  }

  abbrev pub tell : Bytes → View → Answer × View
  tell value v = (number (length value % 2 ^ 32), record v { shared = value })

  -- The texts that do not depend on the state.
  abbrev constant : (State P → ℕ × State P) → Bytes
  constant f = (f (initial_state P)).1.shared_bytes

  abbrev pub style_of : View → Bytes → RegisteredConfig P → P.Style
  style_of v code entry =
      chosen_style P entry
        (resolve_format_style P entry.plugin entry.global (override_options P v.override_json))
        v.file code

  -- A verdict told: what earlier calls left is gone, and so are the text and the override.
  abbrev pub tell_verdict : Verdict → View → Answer × View
  tell_verdict unchanged v =
      (number 0, record v { shared = []; override_json = []; new_text = []; message = [] })
  tell_verdict (changed result) v =
      (number 1, record v { shared = []; override_json = []; new_text = result; message = [] })
  tell_verdict (rejected why) v =
      (number 2, record v { shared = []; override_json = []; new_text = []; message = text why })

  -- The verdict on the shared bytes as a text.
  abbrev pub judged : View → ℕ → ℕ → ℕ → Verdict
  judged v id from to = judge P (v.configs id) (style_of v v.shared) v.file v.shared from to

  -- The promise.
  pub serve : Call → View → Answer × View
  serve asks_version v = (number 4, v)
  serve reads v = (pointer (if is_empty v.shared then none else some v.shared), v)
  serve (clears size) v =
      let bytes = replicate size 0 in
      (pointer (if is_empty bytes then none else some bytes), record v { shared = bytes })
  serve (writes bytes) v =
      if length bytes == length v.shared then (void, record v { shared = bytes }) else (void, v)
  serve asks_info v = tell (constant (get_plugin_info P)) v
  serve asks_license v = tell (constant (get_license_text P)) v
  serve (registers id) v = (
    void,
    record v {
      shared = [];
      configs = λ j. if id == j then some (payload_entry P id v.shared) else v.configs j;
    },
  )
  serve (releases id) v = (void, record v { configs = λ j. if id == j then none else v.configs j })
  serve (asks_diagnostics id) v = tell (stored_diagnostics P (v.configs id)) v
  serve (asks_options id) v = tell (stored_options P (v.configs id)) v
  serve (asks_matching id) v = tell (constant (get_config_file_matching P id)) v
  serve sets_path v = (void, record v { shared = []; file = normalize v.shared })
  serve sets_override v = (void, record v { shared = []; override_json = v.shared })
  serve (formats id) v = tell_verdict (judged v id 0 (length v.shared % 2 ^ 32)) v
  serve (formats_range id from to) v = tell_verdict (judged v id from to) v
  serve asks_text v = tell v.new_text (record v { new_text = [] })
  serve asks_error v = tell v.message (record v { message = [] })
  serve asks_updates v = tell (constant (check_config_updates P)) v

  -- The calls in order: what they answer, and the state afterwards.
  unfoldable pub run : List Call → State P → List Answer × State P
  run [] s = ([], s)
  run (c ∷ calls) s = let r = call c s in let rest = run calls r.1 in (r.0 ∷ rest.0, rest.1)

  pub promised : List Call → View → List Answer × View
  promised [] v = ([], v)
  promised (c ∷ calls) v =
      let r = serve c v in let rest = promised calls r.1 in (r.0 ∷ rest.0, rest.1)
