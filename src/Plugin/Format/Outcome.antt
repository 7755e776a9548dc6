-- ===== src/Plugin/Format/Outcome.antt =====
-- What a call of `format` or `format_range` in src/dprint_plugin.cpp comes to.
use dprint_clang_format.Plugin.Platform.{Platform, Range}
use dprint_clang_format.Plugin.State.{RegisteredConfig, State, take_shared_string}
use dprint_clang_format.Base.{
  ◌≤◌, Bool-cases, Option-cases, ◌%◌, ◌^◌, inl, inr, Bool, true, false, ltb, if◌then◌else◌, length,
  Bytes, text, same, is_empty, ℕ, ◌-◌, String, ◌≡◌, refl, ◌||◌, Option, none, some, List, [], ◌∷◌,
  arith,
}
use dprint_clang_format.Plugin.Registry.{find_config}
use dprint_clang_format.Plugin.Format.{
  style_for_format, finish, run_format, format_checked, format_inner,
}

-- The result of formatting, apart from the statics that carry it.
pub data Verdict : Type 0 where
  unchanged : Verdict
  changed : Bytes → Verdict
  rejected : String → Verdict

-- How a verdict is told to dprint.
abbrev pub report : {P : Platform} → Verdict → State P → ℕ × State P
report unchanged s = (0, s)
report (changed result) s = (1, record s { formatted_text = result })
report (rejected message) s = (2, record s { error_text = text message })

or_reject {ℓ} : {A : Type ℓ} → Option A → String → (A → Verdict) → Verdict
or_reject none message next = rejected message
or_reject (some a) message next = next a

module _ (P : Platform) where
  -- The file name that Clang is given.
  abbrev pub name_for : Bytes → Bytes
  name_for path = if is_empty path then text "<stdin>" else path

  -- Clang's part: sorting the includes, then formatting what that gives, in the ranges moved along.
  clang_format : P.Style → Bytes → Bytes → List Range → Option Bytes
  clang_format style name input ranges =
      let sorting = P.sort_includes style input ranges name in
      elim (P.apply_all_replacements input sorting) [
        | none ↦ none
        | some sorted ↦ P.apply_all_replacements input (
            P.merge sorting
              (P.reformat style sorted (P.ranges_after_replacements sorting ranges) name))
      ]

  -- The specification, on what is found under the id and the style that an entry is formatted with: a
  -- range outside the text and an id that is not registered are rejected, and so is a failure of
  -- Clang's; a result that is the input is no change.
  pub judge :
      Option (RegisteredConfig P) → (RegisteredConfig P → P.Style) → Bytes → Bytes → ℕ → ℕ → Verdict
  unfolding or_reject clang_format
  judge found style_of path input from to =
      if ltb to from || ltb (length input) to
      then rejected "invalid format range"
      else or_reject found "unknown config id" (λ entry.
        let ranges = record { offset = from; len = to - from } ∷ [] in
        or_reject (clang_format (style_of entry) (name_for path) input ranges)
          "clang-format failed to apply replacements"
          (λ result. if same result input then unchanged else changed result))

  pub verdict : State P → ℕ → Bytes → ℕ → ℕ → Verdict
  unfolding judge
  verdict s config_id input from to =
      judge (find_config config_id s.registered_configs) (λ entry. style_for_format P s entry input)
        s.file_path input from to

  pub verdict-judge :
      (s : State P) (config_id : ℕ) (input : Bytes) (from to : ℕ)
      → verdict s config_id input from to
        ≡ judge
            (find_config config_id s.registered_configs)
            (λ entry. style_for_format P s entry input)
            s.file_path
            input
            from
            to
  unfolding verdict
  verdict-judge s config_id input from to = refl

  -- Only the style of the entry that is found counts.
  pub judge-some :
      (entry : RegisteredConfig P) (f : RegisteredConfig P → P.Style) (style : P.Style)
      (path input : Bytes) (from to : ℕ)
      → f entry ≡ style
      → judge (some entry) f path input from to ≡ judge (some entry) (λ c. style) path input from to
  unfolding judge or_reject
  judge-some entry f style path input from to e = rw e

  pub verdict-unknown :
      (s : State P) (config_id : ℕ) (input : Bytes) (from to : ℕ)
      → from ≤ to
      → to ≤ length input
      → find_config config_id s.registered_configs ≡ none
      → verdict s config_id input from to ≡ rejected "unknown config id"
  unfolding verdict or_reject
  verdict-unknown s config_id input from to order fits absent =
      let in_range : (ltb to from || ltb (length input) to) ≡ false = ground arith in
      rw (in_range, absent)

  -- The statics when a call has been told its input: the shared bytes, the override and the results of
  -- earlier calls are gone.
  abbrev pub fresh : State P → State P
  fresh s = record s {
    shared_bytes = [];
    override_config_json = [];
    formatted_text = [];
    error_text = [];
  }

  abbrev pub cleared : State P → State P
  cleared s = record s { shared_bytes = []; formatted_text = []; error_text = [] }

  finish-report :
      (s : State P) (input : Bytes) (r : Option Bytes)
      → finish P s input r
        ≡ report
            (or_reject r "clang-format failed to apply replacements"
              (λ result. if same result input then unchanged else changed result))
            s
  unfolding finish or_reject
  finish-report s input none = refl
  finish-report s input (some result) = ground arith

  run_format-report :
      (s : State P) (style : P.Style) (input : Bytes) (from to : ℕ)
      → run_format P s style input from to
        ≡ report
            (or_reject
              (clang_format style
                (name_for s.file_path)
                input
                (record { offset = from; len = to - from } ∷ []))
              "clang-format failed to apply replacements"
              (λ result. if same result input then unchanged else changed result))
            s
  unfolding run_format clang_format or_reject
  run_format-report s style input from to =
      let name = name_for s.file_path in
      let ranges : List Range = record { offset = from; len = to - from } ∷ [] in
      let sorting = P.sort_includes style input ranges name in
      elim (Option-cases (P.apply_all_replacements input sorting)) [
        | inl e ↦ rw (e, clang_format)
        | inr (sorted, e) ↦
            rw (e, clang_format)
              (finish-report s input (
                P.apply_all_replacements input (
                  P.merge sorting
                    (P.reformat style sorted (P.ranges_after_replacements sorting ranges) name))))
      ]

  format_checked-report :
      (s : State P) (config_id : ℕ) (input : Bytes) (from to : ℕ)
      → format_checked P s config_id input from to
        ≡ report (verdict s config_id input from to) (record s { override_config_json = [] })
  unfolding format_checked verdict or_reject
  format_checked-report s config_id input from to =
      elim (Bool-cases (ltb to from || ltb (length input) to)) [
        | inl bad ↦ rw bad
        | inr fits ↦ elim (Option-cases (find_config config_id s.registered_configs)) [
          | inl absent ↦ rw (fits, absent)
          | inr (entry, found) ↦
              rw (fits, found)
                (run_format-report (record s { override_config_json = [] })
                  (style_for_format P s entry input) input from to)
        ]
      ]

  -- `format_inner` takes the shared bytes for the text, the whole of it where it is given no range, and
  -- reports the verdict of the specification: 0 for no change, 1 with the new text, 2 with a message.
  -- On every path the override is used up, and the texts that an earlier call left are gone; the
  -- configurations and the file path stay.
  pub format_inner-report :
      (s : State P) (config_id from to : ℕ) (has_range : Bool)
      → let input = s.shared_bytes in
        let start = if has_range then from else 0 in
        let end = if has_range then to else length input % 2 ^ 32 in
        format_inner P s config_id from to has_range
        ≡ report (verdict (cleared s) config_id input start end) (fresh s)
  unfolding format_inner take_shared_string
  format_inner-report s config_id from to true =
      format_checked-report (cleared s) config_id s.shared_bytes from to
  format_inner-report s config_id from to false =
      format_checked-report (cleared s) config_id s.shared_bytes 0 (length s.shared_bytes % 2 ^ 32)
