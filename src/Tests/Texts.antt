-- ===== src/Tests/Texts.antt =====
-- Texts that src/dprint_plugin.cpp writes and reads.
use dprint_clang_format.Base.{all_of, same, none, some, List, [], ◌∷◌, arith, refl, text, ◌≡◌}
use dprint_clang_format.Plugin.Escape.Members.{IsPlain, read_object}
use dprint_clang_format.Plugin.Exports.{get_plugin_info}
use dprint_clang_format.Plugin.Exports.Info.{info, read_object-get_plugin_info}
use dprint_clang_format.Plugin.State.{initial_state}
use dprint_clang_format.Runtime.Number.{is_digit}
use dprint_clang_format.Base.Int.{pos}
use dprint_clang_format.Plugin.Resolve.{resolve_format_style}
use dprint_clang_format.Plugin.Resolve.Numerals.{IsNumeral, find-resolved_numeral}
use dprint_clang_format.Tests.Toy.{nothing, toy-IsJson, toy, toy_floats-IsExact}
use dprint_clang_format.Runtime.Number.Numeral.{minus}
use dprint_clang_format.Plugin.Escape.{ConfigDiagnostic}
use dprint_clang_format.Plugin.Options.{diagnostic}
use dprint_clang_format.Runtime.Number.Decimal.{Literal}

abbrev two_diagnostics : List ConfigDiagnostic
two_diagnostics =
    diagnostic (text "lineWidth") (text "Expected a number")
    ∷ (diagnostic (text "say \"hi\"") (text "a\\b\n") ∷ [])

-- No digit at all.
abbrev a_point : Literal
a_point = record { blanks = []; sign = minus; whole = []; fraction = some []; exponent = none }

-- dprint's configuration with a number written as a string.
abbrev as_text : toy.Object
as_text = toy.put nothing (text "lineWidth") (toy.of_string (text "120"))

text-IsNumeral : IsNumeral toy (toy.of_string (text "120")) (text "120")
unfolding text is_digit
text-IsNumeral = record {
  set = refl;
  no_number = refl;
  is_string = refl;
  digits = (refl, (refl, (refl, tt)));
  exact = omega arith;
}

find-resolved_numeral_example :
    toy.find (resolve_format_style toy nothing as_text none).resolved (text "ColumnLimit")
    ≡ some (toy.of_int64 (pos 120))
unfolding text same
find-resolved_numeral_example =
    find-resolved_numeral toy toy-IsJson toy_floats-IsExact nothing as_text none
      (toy.of_string (text "120")) b'1' (b'2' ∷ (b'0' ∷ [])) refl refl refl text-IsNumeral

toy_version-IsPlain : IsPlain toy.plugin_version
unfolding all_of text
toy_version-IsPlain = refl

toy_address-IsPlain : IsPlain toy.schema_base_url
unfolding all_of text
toy_address-IsPlain = refl

read_object-get_plugin_info_example :
    read_object 11 7 ((get_plugin_info toy (initial_state toy)).1).shared_bytes
    ≡ some (info toy, [])
read_object-get_plugin_info_example =
    read_object-get_plugin_info toy (initial_state toy) toy_version-IsPlain toy_address-IsPlain
