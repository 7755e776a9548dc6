-- ===== src/Plugin/Options.antt =====
-- How src/dprint_plugin.cpp gathers the options of a style: `parse_bool_value`, `parse_number_value`,
-- `merge_global_options`, `merge_object_options` and `reject_filesystem_dependent_style`.
-- The options and the diagnostics so far are passed along as a pair.
pub mod Merge
pub mod Reject
pub mod Numbers
use dprint_clang_format.Base.{
  ◌==◌, if◌then◌else◌, is_some, length, Bytes, text, same, Bool, true, false, not, ◌&&◌, ◌||◌,
  Option, none, some, List, [], ◌∷◌, ◌++◌,
}
use dprint_clang_format.Runtime.Number.{peek, strtod}
use dprint_clang_format.Plugin.Platform.{Platform, IsJson, lookup, NodupKeys}
use dprint_clang_format.Plugin.Escape.{ConfigDiagnostic}

abbrev pub diagnostic : Bytes → Bytes → ConfigDiagnostic
diagnostic name message = record { property_name = name; message = message }

module _ (P : Platform) where
  boolean_of_string : Option Bytes → Option Bool
  boolean_of_string none = none
  boolean_of_string (some str) =
      if same str (text "true")
      then some true
      else if same str (text "false")
      then some false
      else none

  bool_value : Option Bool → Option Bytes → Option Bool
  unfolding boolean_of_string
  bool_value (some boolean) str = some boolean
  bool_value none str = boolean_of_string str

  -- The result is `none` where the source returns false, and otherwise what it stores through `out`.
  unfoldable pub parse_bool_value : P.Value → Option Bool
  unfolding bool_value
  parse_bool_value value = bool_value (P.get_as_boolean value) (P.get_as_string value)

  -- `end != text.c_str() && *end == '\0'`: `end` points to a suffix of the text.
  at_end : Bytes → Option Bytes → Bool
  unfolding peek
  at_end str none = false
  at_end str (some end) = not (length end == length str) && peek end == 0

  whole_text : Bytes → P.floats.Double × Option Bytes → Option P.floats.Double
  unfolding at_end
  whole_text str (value, end) = if at_end str end then some value else none

  number_of_string : Option Bytes → Option P.floats.Double
  unfolding whole_text
  number_of_string none = none
  number_of_string (some str) = whole_text str (strtod P.floats (some str))

  number_value : Option P.floats.Double → Option Bytes → Option P.floats.Double
  unfolding number_of_string
  number_value (some num) str = some num
  number_value none str = number_of_string str

  -- Likewise. What is stored where the source returns false is not read by its caller.
  unfoldable pub parse_number_value : P.Value → Option P.floats.Double
  unfolding number_value
  parse_number_value value = number_value (P.get_as_number value) (P.get_as_string value)

  abbrev pub Gathered : Type 0
  Gathered = P.Object × List ConfigDiagnostic

  -- The global option is missing or null, or the clang-format option is set.
  skips : Option P.Value → Option P.Value → Bool
  skips none clang = true
  skips (some value) clang = P.get_as_null value || is_some clang

  put_number : Bytes → Bytes → Option P.floats.Double → Gathered → Gathered
  put_number global_key clang_key none (options, diagnostics) =
      (options, diagnostics ++ (diagnostic global_key (text "Expected a number") ∷ []))
  put_number global_key clang_key (some number) (options, diagnostics) =
      (P.put options clang_key (P.of_int64 (P.floats.to_int64 number)), diagnostics)

  parsed_number : Option P.Value → Option P.floats.Double
  parsed_number none = none
  parsed_number (some value) = parse_number_value value

  -- The lambda of `merge_global_options`.
  unfoldable pub take_number : P.Object → Bytes → Bytes → Gathered → Gathered
  unfolding skips put_number parsed_number
  take_number global global_key clang_key g =
      let value = P.find global global_key in
      if skips value (P.find g.0 clang_key)
      then g
      else put_number global_key clang_key (parsed_number value) g

  put_tabs : Option Bool → Gathered → Gathered
  put_tabs none (options, diagnostics) =
      (options, diagnostics ++ (diagnostic (text "useTabs") (text "Expected a boolean") ∷ []))
  put_tabs (some use_tabs) (options, diagnostics) = (
    P.put options (text "UseTab") (P.of_string (if use_tabs then text "Always" else text "Never")),
    diagnostics,
  )

  parsed_bool : Option P.Value → Option Bool
  parsed_bool none = none
  parsed_bool (some value) = parse_bool_value value

  -- The last part of `merge_global_options`.
  unfoldable pub take_tabs : P.Object → Gathered → Gathered
  unfolding skips put_tabs parsed_bool
  take_tabs global g =
      let value = P.find global (text "useTabs") in
      if skips value (P.find g.0 (text "UseTab")) then g else put_tabs (parsed_bool value) g

  unfoldable pub merge_global_options : P.Object → Gathered → Gathered
  merge_global_options global g = take_tabs global (
      take_number global (text "indentWidth") (text "IndentWidth")
        (take_number global (text "lineWidth") (text "ColumnLimit") g))

  put_entries : List (Bytes × P.Value) → P.Object → P.Object
  put_entries [] options = options
  put_entries ((key, value) ∷ rest) options = put_entries rest (P.put options key value)

  unfoldable pub merge_object_options : P.Object → P.Object → P.Object
  unfolding put_entries
  merge_object_options source options = put_entries (P.entries source) options

  needs_files : Bytes → Bool
  needs_files value =
      P.equals_insensitive value (text "file")
      || P.equals_insensitive value (text "InheritParentConfig")

  -- The string under `BasedOnStyle`, if there is one.
  base_style : Option P.Value → Option Bytes
  base_style none = none
  base_style (some value) = P.get_as_string value

  rejection : Option Bytes → List ConfigDiagnostic
  unfolding needs_files
  rejection none = []
  rejection (some value) =
      if needs_files value
      then diagnostic (text "BasedOnStyle")
          (text "Filesystem-dependent clang-format style discovery is not supported")
        ∷ []
      else []

  unfoldable pub reject_filesystem_dependent_style :
      P.Object → List ConfigDiagnostic → List ConfigDiagnostic
  unfolding base_style rejection
  reject_filesystem_dependent_style options diagnostics =
      diagnostics ++ rejection (base_style (P.find options (text "BasedOnStyle")))
