-- ===== src/Plugin/Exports/Payloads.antt =====
-- What src/dprint_plugin.cpp makes of a payload of `register_config`, the refused ones included.
use dprint_clang_format.Plugin.Format.Style.{
  guessed, resolve_again, chosen_style-guessed, IsResolvedEntry,
}
use dprint_clang_format.Base.{inl, ◌∙◌, false, Bytes, ℕ, ◌≡◌, refl, true, none, []}
use mathlib.Core.Path.{ap₂}
use dprint_clang_format.Plugin.Options.Merge.{no_global_option}
use dprint_clang_format.Plugin.State.{default_config}
use dprint_clang_format.Plugin.Format.{style_for_format, chosen_style}
use dprint_clang_format.Plugin.Resolve.{resolve_format_style, resolve_registered_config}
use dprint_clang_format.Plugin.Exports.{diagnostics_to_json, State, default_config, payload_entry}
use dprint_clang_format.Plugin.Platform.{IsJson, Platform}
use dprint_clang_format.Plugin.Resolve.Precedence.{find-resolved}
use dprint_clang_format.Plugin.Resolve.Validity.{resolve-no_options}
use dprint_clang_format.Plugin.Payload.{parse_register_payload}

module _ (P : Platform) where
  -- An accepted payload is registered as its two objects resolve; the diagnostics of the payload itself
  -- are dropped.
  pub payload_entry-accepted :
      (id : ℕ) (payload : Bytes)
      → let r = parse_register_payload P payload in
        r.accepted ≡ true
        → (payload_entry P id payload ≡ resolve_registered_config P id r.plugin r.global)
          × IsResolvedEntry P (payload_entry P id payload)
  unfolding payload_entry resolve_registered_config
  payload_entry-accepted id payload e = rw e (refl, refl)

  -- An empty configuration resolves to no option, and so to the style of LLVM.
  resolve-empty :
      IsJson P
      → let r = resolve_format_style P P.empty P.empty none in
        (r.valid ≡ true) × (r.style ≡ P.get_llvm_style)
  resolve-empty J = resolve-no_options P P.empty P.empty none (
      J.find-is_empty (resolve_format_style P P.empty P.empty none).resolved (λ k.
        find-resolved P J P.empty P.empty none k ∙ rw (J.find-empty k, no_global_option P J k)))

  pub refused_parts :
      (id : ℕ) (payload : Bytes)
      → (parse_register_payload P payload).accepted ≡ false
      → let entry = payload_entry P id payload in
        (entry.valid ≡ false)
        × (entry.plugin ≡ P.empty)
        × (entry.global ≡ P.empty)
        × (entry.style ≡ P.get_llvm_style)
        × (entry.diagnostics_json
            ≡ diagnostics_to_json (parse_register_payload P payload).diagnostics)
  unfolding payload_entry default_config
  refused_parts id payload e = rw e (refl, refl, refl, refl, refl)

  -- A payload that is refused is registered as invalid with the diagnostics of its parsing. Formatting
  -- with that entry does not fail: with no override it takes LLVM's style, and guesses the language as
  -- for a valid configuration.
  pub payload_entry-refused :
      IsJson P
      → (s : State P) (id : ℕ) (payload code : Bytes)
      → let r = parse_register_payload P payload in
        let entry = payload_entry P id payload in
        r.accepted ≡ false
        → s.override_config_json ≡ []
        → (entry.valid ≡ false)
          × (entry.diagnostics_json ≡ diagnostics_to_json r.diagnostics)
          × (style_for_format P s entry code ≡ guessed P P.get_llvm_style s.file_path code)
  payload_entry-refused J s id payload code e quiet =
      let (invalid, plugin, global, style, told) = refused_parts id payload e in
      let entry = payload_entry P id payload in
      let r = resolve_format_style P P.empty P.empty none in
      let empty = resolve-empty J in
      (
        invalid,
        told,
        resolve_again P s entry code (inl quiet)
            ∙ ap₂
                (λ (p g : P.Object).
                  chosen_style P entry (resolve_format_style P p g none) s.file_path code)
                plugin global
            ∙ chosen_style-guessed P entry r s.file_path code
            ∙ rw (empty.0, empty.1),
      )
