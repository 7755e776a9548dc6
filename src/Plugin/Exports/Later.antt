-- ===== src/Plugin/Exports/Later.antt =====
-- Formatting in src/dprint_plugin.cpp after whatever calls went before.
use dprint_clang_format.Base.{
  ◌+◌, Option, List, Bool-cases, length, Bytes, ℕ, ◌%◌, ◌^◌, ◌≤◌, ap, inl, inr, true, false, none,
  some, [], arith, ◌≡◌, sym, ◌∙◌, text,
}
use dprint_clang_format.Plugin.Exports.{format, format_range, payload_entry, release_config}
use dprint_clang_format.Plugin.Exports.Payloads.{payload_entry-accepted, refused_parts}
use dprint_clang_format.Plugin.Exports.Session.{Reach, Reach-IsSound}
use dprint_clang_format.Plugin.Format.{style_for_format}
use dprint_clang_format.Plugin.Format.Outcome.{
  cleared, format_inner-report, fresh, verdict-unknown, Verdict, judge, judge-some, report, verdict,
  verdict-judge,
}
use dprint_clang_format.Plugin.Format.Style.{IsResolvedEntry, guessed, style_for_format-registered}
use dprint_clang_format.Plugin.Payload.{parse_register_payload}
use dprint_clang_format.Plugin.Platform.{Platform}
use dprint_clang_format.Plugin.Registry.{find_config}
use dprint_clang_format.Plugin.Registry.Table.{find-erase}
use dprint_clang_format.Plugin.State.{RegisteredConfig, State}
use mathlib.Core.Path.{subst}
use dprint_clang_format.Plugin.Escape.{ConfigDiagnostic}
use dprint_clang_format.Plugin.Escape.Diagnostics.{read_diagnostics}
use dprint_clang_format.Plugin.Registry.Entries.{All-find}

module _ (P : Platform) where
  -- A valid entry comes of a payload that was accepted.
  payload_entry-resolved :
      (id : ℕ) (payload : Bytes)
      → (payload_entry P id payload).valid ≡ true
      → IsResolvedEntry P (payload_entry P id payload)
  payload_entry-resolved id payload valid =
      elim (Bool-cases (parse_register_payload P payload).accepted) [
        | inl e ↦ (payload_entry-accepted P id payload e).1
        | inr e ↦ absurd (apart (sym valid ∙ (refused_parts P id payload e).0))
      ]
    where
      apart : true ≡ false → ⊥
      apart e = cc

  style_for_format-Reach :
      {s : State P}
      → Reach P s
      → (id : ℕ) (entry : RegisteredConfig P) (code : Bytes)
      → find_config id s.registered_configs ≡ some entry
      → entry.valid ≡ true
      → s.override_config_json ≡ []
      → style_for_format P s entry code ≡ guessed P entry.style s.file_path code
  style_for_format-Reach {s} r id entry code found valid quiet =
      let (payload, e) =
        All-find (λ c. (payload : Bytes) × (c ≡ payload_entry P c.id payload)) id
          s.registered_configs entry (Reach-IsSound P r).entries found in
      let made =
        payload_entry-resolved entry.id payload
          (ap (λ (c : RegisteredConfig P). c.valid) (sym e) ∙ valid) in
      style_for_format-registered P s entry code (subst (IsResolvedEntry P) (sym e) made)
        (inl quiet)
      ∙ rw valid

  -- The verdict with the style that was stored at the registration.
  abbrev pub stored_verdict : State P → RegisteredConfig P → ℕ → ℕ → Verdict
  stored_verdict s entry from to =
      judge P (some entry) (λ c. guessed P entry.style s.file_path s.shared_bytes) s.file_path
        s.shared_bytes from to

  verdict-Reach :
      {s : State P}
      → Reach P s
      → (id from to : ℕ) (entry : RegisteredConfig P)
      → find_config id s.registered_configs ≡ some entry
      → entry.valid ≡ true
      → s.override_config_json ≡ []
      → verdict P (cleared P s) id s.shared_bytes from to ≡ stored_verdict s entry from to
  unfolding style_for_format
  verdict-Reach {s} r id from to entry found valid quiet =
      verdict-judge P (cleared P s) id s.shared_bytes from to
      ∙ ap
          (λ (o : Option (RegisteredConfig P)).
            judge P o (λ c. style_for_format P s c s.shared_bytes) s.file_path s.shared_bytes from
              to)
          found
      ∙ judge-some P entry (λ c. style_for_format P s c s.shared_bytes)
          (guessed P entry.style s.file_path s.shared_bytes) s.file_path s.shared_bytes from to
          (style_for_format-Reach r id entry s.shared_bytes found valid quiet)

  -- In every state that the plugin can be in and with no override set, `format` and `format_range` with
  -- the id of a valid configuration come to the specification's verdict on the shared bytes with the
  -- style that was stored at the registration, whatever calls lie between; the language is guessed if
  -- there is a path.
  pub format-Reach :
      {s : State P}
      → Reach P s
      → (id from to : ℕ) (entry : RegisteredConfig P)
      → find_config id s.registered_configs ≡ some entry
      → entry.valid ≡ true
      → s.override_config_json ≡ []
      → (format P id s
          ≡ report (stored_verdict s entry 0 (length s.shared_bytes % 2 ^ 32)) (fresh P s))
        × (format_range P id from to s ≡ report (stored_verdict s entry from to) (fresh P s))
  unfolding format format_range
  format-Reach {s} r id from to entry found valid quiet =
      let end = length s.shared_bytes % 2 ^ 32 in
      (
        format_inner-report P s id 0 0 false
            ∙ ap (λ (v : Verdict). report v (fresh P s))
                (verdict-Reach r id 0 end entry found valid quiet),
        format_inner-report P s id from to true
            ∙ ap (λ (v : Verdict). report v (fresh P s))
                (verdict-Reach r id from to entry found valid quiet),
      )

  abbrev given : State P → Bytes → State P
  given s input = record s { shared_bytes = input }

  released-none :
      {s : State P}
      → Reach P s
      → (id : ℕ) → find_config id (release_config P id s).registered_configs ≡ none
  unfolding release_config
  released-none {s} r id =
      find-erase id id s.registered_configs (Reach-IsSound P r).unique ∙ ground arith

  -- In every state that the plugin can be in, once an id is released, formatting a text with it fails:
  -- for each range inside the text, and for the whole of it, the answer is 2 and the message "unknown
  -- config id", and an override that was set is gone.
  pub release-format :
      {s : State P}
      → Reach P s
      → (id from to : ℕ) (input : Bytes) → from ≤ to
      → to ≤ length input
      → let t = given (release_config P id s) input in
        let failed : ℕ × State P =
          (2, record (fresh P t) { error_text = text "unknown config id" }) in
        (format_range P id from to t ≡ failed) × (format P id t ≡ failed)
  unfolding format format_range
  release-format {s} r id from to input order fits =
      let t = given (release_config P id s) input in
      (
        format_inner-report P t id from to true
            ∙ rw (verdict-unknown P (cleared P t) id input from to order fits (released-none r id)),
        format_inner-report P t id 0 0 false
            ∙ rw (
                verdict-unknown P (cleared P t) id input 0 (length input % 2 ^ 32) (omega arith)
                  (omega arith) (released-none r id)),
      )

  -- A text that is read as a list of diagnostics, and as no more.
  abbrev pub TellsDiagnostics : Bytes → Type 0
  TellsDiagnostics told =
      (ds : List ConfigDiagnostic) × (read_diagnostics (length ds + 1) told ≡ some (ds, []))
