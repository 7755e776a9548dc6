-- ===== src/Plugin/Exports/Session.antt =====
-- The life of the plugin in src/dprint_plugin.cpp: dprint calls the exported functions in any order,
-- and writes into the shared bytes in between.
use dprint_clang_format.Base.{
  refl, sym, ap, inl, inr, Bool, true, false, length, All, Bytes, ℕ, ◌≡◌, ◌⊎◌, List, [],
}
use dprint_clang_format.Plugin.Platform.{Platform}
use dprint_clang_format.Plugin.State.{
  RegisteredConfig, State, initial_state, take_shared_string, set_shared_string,
}
use dprint_clang_format.Plugin.Registry.Entries.{All-upsert, All-erase}
use dprint_clang_format.Plugin.Registry.Table.{UniqueIds, UniqueIds-upsert, UniqueIds-erase}
use dprint_clang_format.Plugin.Format.{normalize_file_path, format_inner}
use dprint_clang_format.Plugin.Format.Style.{NoBackslash, normalize-NoBackslash}
use dprint_clang_format.Plugin.Format.Outcome.{
  report, Verdict, unchanged, changed, rejected, fresh, format_inner-report,
}
use dprint_clang_format.Plugin.Exports.{
  clear_shared_bytes, get_plugin_info, get_license_text, payload_entry, register_config,
  release_config, get_config_diagnostics, get_resolved_config, get_config_file_matching,
  set_file_path, set_override_config, format, format_range, get_formatted_text, get_error_text,
  check_config_updates,
}
use dprint_clang_format.Plugin.Exports.Register.{payload_entry-id}

module _ (P : Platform) where
  -- One call, or a write of dprint's to the bytes that are shared, which keeps their number.
  pub data Step : State P → State P → Type 0 where
    host_writes :
        (s : State P) (bytes : Bytes)
        → length bytes ≡ length s.shared_bytes
        → Step s (record s { shared_bytes = bytes })
    clears : (s : State P) (size : ℕ) → Step s (clear_shared_bytes P size s).1
    tells_info : (s : State P) → Step s (get_plugin_info P s).1
    tells_license : (s : State P) → Step s (get_license_text P s).1
    registers : (s : State P) (id : ℕ) → Step s (register_config P id s)
    releases : (s : State P) (id : ℕ) → Step s (release_config P id s)
    tells_diagnostics : (s : State P) (id : ℕ) → Step s (get_config_diagnostics P id s).1
    tells_options : (s : State P) (id : ℕ) → Step s (get_resolved_config P id s).1
    tells_matching : (s : State P) (id : ℕ) → Step s (get_config_file_matching P id s).1
    sets_path : (s : State P) → Step s (set_file_path P s)
    sets_override : (s : State P) → Step s (set_override_config P s)
    formats : (s : State P) (id : ℕ) → Step s (format P id s).1
    formats_range : (s : State P) (id from to : ℕ) → Step s (format_range P id from to s).1
    tells_text : (s : State P) → Step s (get_formatted_text P s).1
    tells_error : (s : State P) → Step s (get_error_text P s).1
    checks_updates : (s : State P) → Step s (check_config_updates P s).1

  -- The states that the plugin can be in.
  pub data Reach : State P → Type 0 where
    start : Reach (initial_state P)
    next : {s t : State P} → Reach s → Step s t → Reach t

  -- Each entry is what `register_config` made of some payload.
  abbrev pub FromPayloads : List (RegisteredConfig P) → Type 0
  FromPayloads = All (λ c. (payload : Bytes) × (c ≡ payload_entry P c.id payload))

  pub record IsSound (s : State P) : Type 0 where
    pub unique : UniqueIds s.registered_configs
    pub entries : FromPayloads s.registered_configs
    pub path : NoBackslash s.file_path
    -- At most one of the two results is there.
    pub results : (s.formatted_text ≡ []) ⊎ (s.error_text ≡ [])

  entry_of_payload :
      (id : ℕ) (payload : Bytes)
      → (p : Bytes) × (payload_entry P id payload
          ≡ payload_entry P (payload_entry P id payload).id p)
  entry_of_payload id payload =
      (payload, ap (λ (i : ℕ). payload_entry P i payload) (sym (payload_entry-id P id payload)))

  report-IsSound : (s : State P) (v : Verdict) → IsSound s → IsSound (report v (fresh P s)).1
  report-IsSound s unchanged h = record {
    unique = h.unique;
    entries = h.entries;
    path = h.path;
    results = inl refl;
  }
  report-IsSound s (changed result) h = record {
    unique = h.unique;
    entries = h.entries;
    path = h.path;
    results = inr refl;
  }
  report-IsSound s (rejected message) h = record {
    unique = h.unique;
    entries = h.entries;
    path = h.path;
    results = inl refl;
  }

  format_inner-IsSound :
      (s : State P) (id from to : ℕ) (has_range : Bool)
      → IsSound s
      → IsSound (format_inner P s id from to has_range).1
  format_inner-IsSound s id from to has_range h = rw format_inner-report (report-IsSound s _ h)

  told-IsSound : (s : State P) (value : Bytes) → IsSound s → IsSound (set_shared_string P value s).1
  unfolding set_shared_string
  told-IsSound s value h = record {
    unique = h.unique;
    entries = h.entries;
    path = h.path;
    results = h.results;
  }

  Step-IsSound : {s t : State P} → Step s t → IsSound s → IsSound t
  unfolding clear_shared_bytes get_plugin_info get_license_text register_config release_config
      get_config_diagnostics get_resolved_config get_config_file_matching set_file_path
      set_override_config format format_range get_formatted_text get_error_text check_config_updates
      take_shared_string
  Step-IsSound (host_writes s bytes e) h = record {
    unique = h.unique;
    entries = h.entries;
    path = h.path;
    results = h.results;
  }
  Step-IsSound (clears s size) h = record {
    unique = h.unique;
    entries = h.entries;
    path = h.path;
    results = h.results;
  }
  Step-IsSound (tells_info s) h = told-IsSound s _ h
  Step-IsSound (tells_license s) h = told-IsSound s _ h
  Step-IsSound (registers s id) h = record {
    unique =
        UniqueIds-upsert id (payload_entry P id s.shared_bytes) s.registered_configs
          (payload_entry-id P id s.shared_bytes) h.unique;
    entries =
        All-upsert (λ c. (payload : Bytes) × (c ≡ payload_entry P c.id payload)) id
          (payload_entry P id s.shared_bytes) s.registered_configs
          (entry_of_payload id s.shared_bytes) h.entries;
    path = h.path;
    results = h.results;
  }
  Step-IsSound (releases s id) h = record {
    unique = UniqueIds-erase id s.registered_configs h.unique;
    entries =
        All-erase (λ c. (payload : Bytes) × (c ≡ payload_entry P c.id payload)) id
          s.registered_configs h.entries;
    path = h.path;
    results = h.results;
  }
  Step-IsSound (tells_diagnostics s id) h = told-IsSound s _ h
  Step-IsSound (tells_options s id) h = told-IsSound s _ h
  Step-IsSound (tells_matching s id) h = told-IsSound s _ h
  Step-IsSound (sets_path s) h =
      unfold normalize_file_path in
      record {
        unique = h.unique;
        entries = h.entries;
        path = (normalize-NoBackslash s.shared_bytes).0;
        results = h.results;
      }
  Step-IsSound (sets_override s) h = record {
    unique = h.unique;
    entries = h.entries;
    path = h.path;
    results = h.results;
  }
  Step-IsSound (formats s id) h = format_inner-IsSound s id 0 0 false h
  Step-IsSound (formats_range s id from to) h = format_inner-IsSound s id from to true h
  Step-IsSound (tells_text s) h =
      told-IsSound (record s { formatted_text = [] }) s.formatted_text
        (record { unique = h.unique; entries = h.entries; path = h.path; results = inl refl })
  Step-IsSound (tells_error s) h =
      told-IsSound (record s { error_text = [] }) s.error_text
        (record { unique = h.unique; entries = h.entries; path = h.path; results = inr refl })
  Step-IsSound (checks_updates s) h = told-IsSound s _ h

  -- In every state that the plugin can be in, no id is registered twice, each entry is what
  -- `register_config` makes of some payload under its id, the file path has no backslash, and the
  -- formatted text or the error text is empty.
  pub Reach-IsSound : {s : State P} → Reach s → IsSound s
  unfolding initial_state
  Reach-IsSound start = record { unique = tt; entries = tt; path = tt; results = inl refl }
  Reach-IsSound (next r step) = Step-IsSound step (Reach-IsSound r)
