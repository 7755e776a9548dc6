-- ===== src/Plugin/Format/Style.antt =====
-- The style that src/dprint_plugin.cpp formats with, and the path that it tells Clang.
use dprint_clang_format.Base.{
  or_else, ◌↔◌, ◌∙◌, inl, inr, Option, if◌then◌else◌, length, All, Bytes, is_empty, suc, ◌≡◌, refl,
  ap, ◌≢◌, ◌⊎◌, none, some, [], ◌∷◌, arith,
}
use mathlib.Core.Path.{subst}
use dprint_clang_format.Plugin.Platform.{Platform, IsJson}
use dprint_clang_format.Plugin.Options.Merge.{global_option}
use dprint_clang_format.Plugin.Resolve.Precedence.{find-resolved}
use dprint_clang_format.Plugin.State.{RegisteredConfig, State}
use dprint_clang_format.Plugin.Resolve.{
  ResolveResult, resolve_format_style, resolve_registered_config,
}
use dprint_clang_format.Plugin.Payload.{parse_override_payload}
use dprint_clang_format.Plugin.Format.{normalize, override_options, chosen_style, style_for_format}

abbrev pub NoBackslash : Bytes → Type 0
NoBackslash = All (λ ch. ch ≢ b'\\')

-- The normalised path has no backslash, is as long as the path, and is the path itself exactly where
-- that has none.
pub normalize-NoBackslash :
    (path : Bytes)
    → NoBackslash (normalize path)
      × (length (normalize path) ≡ length path)
      × ((normalize path ≡ path) ↔ NoBackslash path)
unfolding normalize
normalize-NoBackslash [] = (tt, refl, (λ _. tt, λ _. refl))
normalize-NoBackslash (ch ∷ path) =
    let (clean, long, same_path) = normalize-NoBackslash path in
    let all_clean : NoBackslash (normalize (ch ∷ path)) = (ground arith, clean) in
    (
      all_clean,
      ap suc long,
      (λ e. subst NoBackslash e all_clean, λ h. ground (arith, same_path.1 h.1)),
    )

module _ (P : Platform) where
  -- What guessing the language makes of a style, where there is a path to guess by.
  abbrev pub guessed : P.Style → Bytes → Bytes → P.Style
  guessed style path code =
      if is_empty path then style else P.set_language style (P.guess_language path code)

  -- The entry is one that a configuration resolves to.
  abbrev pub IsResolvedEntry : RegisteredConfig P → Type 0
  IsResolvedEntry entry = entry ≡ resolve_registered_config P entry.id entry.plugin entry.global

  override_options-none :
      (json : Bytes)
      → (json ≡ []) ⊎ (parse_override_payload P json ≡ none)
      → override_options P json ≡ none
  unfolding override_options
  override_options-none [] quiet = refl
  override_options-none (c ∷ json) (inl e) = cc
  override_options-none (c ∷ json) (inr e) = e

  override_options-some :
      (json : Bytes) (over : P.Object)
      → json ≢ []
      → parse_override_payload P json ≡ some over
      → override_options P json ≡ some over
  unfolding override_options
  override_options-some [] over set e = absurd (set refl)
  override_options-some (c ∷ json) over set e = e

  pub chosen_style-guessed :
      (entry : RegisteredConfig P) (r : ResolveResult P) (path code : Bytes)
      → chosen_style P entry r path code
        ≡ (if r.valid then guessed r.style path code else entry.style)
  unfolding chosen_style
  chosen_style-guessed entry r path code = refl

  resolved_parts :
      (entry : RegisteredConfig P)
      → IsResolvedEntry entry
      → (entry.style ≡ (resolve_format_style P entry.plugin entry.global none).style)
        × (entry.valid ≡ (resolve_format_style P entry.plugin entry.global none).valid)
  unfolding resolve_registered_config
  resolved_parts entry e =
      (ap (λ (c : RegisteredConfig P). c.style) e, ap (λ (c : RegisteredConfig P). c.valid) e)

  pub resolve_again :
      (s : State P) (entry : RegisteredConfig P) (code : Bytes)
      → (s.override_config_json ≡ []) ⊎ (parse_override_payload P s.override_config_json ≡ none)
      → style_for_format P s entry code
        ≡ chosen_style P entry
            (resolve_format_style P entry.plugin entry.global none)
            s.file_path
            code
  unfolding style_for_format
  resolve_again s entry code quiet =
      ap
        (λ (o : Option P.Object).
          chosen_style P entry (resolve_format_style P entry.plugin entry.global o) s.file_path
            code)
        (override_options-none s.override_config_json quiet)

  -- With no override, or one that Clang's JSON parser refuses or that is no object, a registered
  -- configuration is formatted with the style that was resolved when it was registered; the language
  -- is guessed from the path only if the configuration is valid.
  pub style_for_format-registered :
      (s : State P) (entry : RegisteredConfig P) (code : Bytes)
      → IsResolvedEntry entry
      → (s.override_config_json ≡ []) ⊎ (parse_override_payload P s.override_config_json ≡ none)
      → style_for_format P s entry code
        ≡ (if entry.valid then guessed entry.style s.file_path code else entry.style)
  style_for_format-registered s entry code e quiet =
      let r = resolve_format_style P entry.plugin entry.global none in
      let (style, valid) = resolved_parts entry e in
      resolve_again s entry code quiet
      ∙ chosen_style-guessed entry r s.file_path code
      ∙ rw (← style, ← valid)

  -- With an override that is an object the style is resolved again: its options have the override's
  -- values, else those of the registered configuration, else those of the registered global options.
  -- The registered style is kept only where this is not valid.
  pub style_for_format-override :
      IsJson P
      → (s : State P) (entry : RegisteredConfig P) (code : Bytes) (over : P.Object)
      → s.override_config_json ≢ []
      → parse_override_payload P s.override_config_json ≡ some over
      → let r = resolve_format_style P entry.plugin entry.global (some over) in
        (style_for_format P s entry code
          ≡ (if r.valid then guessed r.style s.file_path code else entry.style))
        × ((k : Bytes)
            → P.find r.resolved k
              ≡ or_else
                  (P.find over k)
                  (or_else (P.find entry.plugin k) (global_option P entry.global k)))
  unfolding style_for_format
  style_for_format-override J s entry code over set e =
      let r = resolve_format_style P entry.plugin entry.global (some over) in
      (
        ap
              (λ (o : Option P.Object).
                chosen_style P entry (resolve_format_style P entry.plugin entry.global o)
                  s.file_path code)
              (override_options-some s.override_config_json over set e)
            ∙ chosen_style-guessed entry r s.file_path code,
        find-resolved P J entry.plugin entry.global (some over),
      )
