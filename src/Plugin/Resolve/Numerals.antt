-- ===== src/Plugin/Resolve/Numerals.antt =====
-- Numbers that are written as strings, from dprint's configuration to the option that Clang reads:
-- src/dprint_plugin.cpp on `strtod` of src/wasm_runtime_core.cpp.
use dprint_clang_format.Base.{
  All, Bytes, ℕ, ◌^◌, ◌≤◌, false, Option, none, some, [], ◌∷◌, ◌≡◌, ap, ◌∙◌, text,
}
use dprint_clang_format.Base.Int.{ℤ, pos}
use dprint_clang_format.Runtime.Floats.{IsExact}
use dprint_clang_format.Runtime.Number.Numeral.{number, unsigned, IsDigit}
use dprint_clang_format.Plugin.Platform.{Platform, IsJson}
use dprint_clang_format.Plugin.Options.Merge.{
  number_option-some, number_option, global_option-width,
}
use dprint_clang_format.Plugin.Options.Numbers.{parse_number-whole}
use dprint_clang_format.Plugin.Resolve.{resolve_format_style}
use dprint_clang_format.Plugin.Resolve.Precedence.{find-resolved, find_in}

module _ (P : Platform) where
  -- A value that is a string of decimal digits.
  pub record IsNumeral (value : P.Value) (str : Bytes) : Type 0 where
    pub set : P.get_as_null value ≡ false
    pub no_number : P.get_as_number value ≡ none
    pub is_string : P.get_as_string value ≡ some str
    pub digits : All IsDigit str
    pub exact : number str ≤ 2 ^ 53

  number_option-numeral :
      IsExact P.floats
      → (global : P.Object) (key : Bytes) (value : P.Value) (d : ℕ) (ds : Bytes)
      → P.find global key ≡ some value
      → IsNumeral value (d ∷ ds)
      → number_option P global key ≡ some (P.of_int64 (pos (number (d ∷ ds))))
  number_option-numeral x global key value d ds found n =
      number_option-some P global key value (P.floats.of_nat (number (d ∷ ds))) found n.set
        (parse_number-whole P x value [] unsigned d ds n.no_number n.is_string tt n.digits n.exact)
      ∙ ap (λ (i : ℤ). some (P.of_int64 i)) (x.to_int64-of_nat (number (d ∷ ds)) n.exact)

  -- Where the plugin's configuration and the override do not set `ColumnLimit`, and dprint's `lineWidth`
  -- is a string of digits for a number up to 2 ^ 53, the option resolves to exactly that number. That is
  -- if the target's arithmetic is exact on such numbers.
  pub find-resolved_numeral :
      IsJson P
      → IsExact P.floats
      → (plugin global : P.Object) (over : Option P.Object) (value : P.Value) (d : ℕ) (ds : Bytes)
      → find_in P over (text "ColumnLimit") ≡ none
      → P.find plugin (text "ColumnLimit") ≡ none
      → P.find global (text "lineWidth") ≡ some value
      → IsNumeral value (d ∷ ds)
      → P.find (resolve_format_style P plugin global over).resolved (text "ColumnLimit")
        ≡ some (P.of_int64 (pos (number (d ∷ ds))))
  find-resolved_numeral J x plugin global over value d ds free unset found n =
      find-resolved P J plugin global over (text "ColumnLimit")
      ∙ rw (
        free,
        unset,
        global_option-width P global (P.of_int64 (pos (number (d ∷ ds))))
            (number_option-numeral x global (text "lineWidth") value d ds found n),
      )
