-- ===== src/Plugin/Exports/Register.antt =====
-- Registering, asking for and releasing configurations in src/dprint_plugin.cpp.
use dprint_clang_format.Base.{
  ◌==◌, if◌then◌else◌, Bytes, text, ℕ, ◌≡◌, refl, Bool, true, false, none, some, arith,
}
use dprint_clang_format.Plugin.Platform.{Platform}
use dprint_clang_format.Plugin.State.{State, take_shared_string, set_shared_string}
use dprint_clang_format.Plugin.Registry.{find_config}
use dprint_clang_format.Plugin.Registry.Table.{UniqueIds, find-upsert, find-erase}
use dprint_clang_format.Plugin.Resolve.{resolve_registered_config}
use dprint_clang_format.Plugin.Payload.{Registration, parse_register_payload}
use dprint_clang_format.Plugin.Exports.{
  registered_entry, payload_entry, register_config, release_config, stored_diagnostics,
  stored_options, get_config_diagnostics, get_resolved_config,
}

module _ (P : Platform) where
  -- What dprint is told of an id: the texts that it reads back from the shared bytes.
  abbrev pub told_diagnostics : ℕ → State P → Bytes
  told_diagnostics id s = (get_config_diagnostics P id s).1.shared_bytes

  abbrev pub told_options : ℕ → State P → Bytes
  told_options id s = (get_resolved_config P id s).1.shared_bytes

  registered_entry-id : (id : ℕ) (r : Registration P) → (registered_entry P id r).id ≡ id
  unfolding registered_entry resolve_registered_config
  registered_entry-id id r = ground arith

  pub payload_entry-id : (id : ℕ) (payload : Bytes) → (payload_entry P id payload).id ≡ id
  unfolding payload_entry
  payload_entry-id id payload = registered_entry-id id (parse_register_payload P payload)

  pub find-register :
      (i j : ℕ) (s : State P)
      → find_config j (register_config P i s).registered_configs ≡ (
          if i == j
          then some (payload_entry P i s.shared_bytes)
          else find_config j s.registered_configs)
  unfolding register_config take_shared_string
  find-register i j s =
      find-upsert i j (payload_entry P i s.shared_bytes) s.registered_configs
        (payload_entry-id i s.shared_bytes)

  -- After `register_config` for an id, dprint is told the diagnostics and the resolved options of the
  -- entry that the shared bytes give, whatever was registered under the id before; what it is told of
  -- every other id stays as it was.
  pub told-register :
      (i j : ℕ) (s : State P)
      → let entry = payload_entry P i s.shared_bytes in
        let s' = register_config P i s in
        (told_diagnostics j s' ≡ (if i == j then entry.diagnostics_json else told_diagnostics j s))
        × (told_options j s' ≡ (if i == j then entry.resolved_json else told_options j s))
  unfolding get_config_diagnostics get_resolved_config set_shared_string
  told-register i j s = rw (find-register i j s) (by_test (i == j))
    where
      by_test :
          (b : Bool)
          → (stored_diagnostics P (
                if b
                then some (payload_entry P i s.shared_bytes)
                else find_config j s.registered_configs)
              ≡ (if b
                  then (payload_entry P i s.shared_bytes).diagnostics_json
                  else stored_diagnostics P (find_config j s.registered_configs)))
            × (stored_options P (
                  if b
                  then some (payload_entry P i s.shared_bytes)
                  else find_config j s.registered_configs)
                ≡ (if b
                    then (payload_entry P i s.shared_bytes).resolved_json
                    else stored_options P (find_config j s.registered_configs)))
      by_test true = (refl, refl)
      by_test false = (refl, refl)

  -- After `release_config` for an id, dprint is told that it has no diagnostics and no options; what it
  -- is told of every other id stays as it was. That is where no id is registered twice.
  pub told-release :
      (i j : ℕ) (s : State P)
      → UniqueIds s.registered_configs
      → let s' = release_config P i s in
        (told_diagnostics j s' ≡ (if i == j then text "[]" else told_diagnostics j s))
        × (told_options j s' ≡ (if i == j then text "{}" else told_options j s))
  unfolding get_config_diagnostics get_resolved_config set_shared_string release_config
  told-release i j s u = rw (find-erase i j s.registered_configs u) (by_test (i == j))
    where
      by_test :
          (b : Bool)
          → (stored_diagnostics P (if b then none else find_config j s.registered_configs) ≡ (
              if b then text "[]" else stored_diagnostics P (find_config j s.registered_configs)))
            × (stored_options P (if b then none else find_config j s.registered_configs)
                ≡ (if b then text "{}" else stored_options P (find_config j s.registered_configs)))
      by_test true = (refl, refl)
      by_test false = (refl, refl)
