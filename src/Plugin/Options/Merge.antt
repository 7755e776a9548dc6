-- ===== src/Plugin/Options/Merge.antt =====
-- Which value an option has after the merging of src/dprint_plugin.cpp.
use dprint_clang_format.Base.{
  false, Option-cases, inl, inr, if◌then◌else◌, or_else, Bytes, text, same, same_iff, ◌≡◌, refl,
  Bool, Option, none, some, List, [], ◌∷◌, arith,
}
use dprint_clang_format.Plugin.Platform.{Platform, IsJson, lookup, NodupKeys}
use dprint_clang_format.Plugin.Options.{
  Gathered, parse_bool_value, parse_number_value, skips, put_number, parsed_number, take_number,
  put_tabs, parsed_bool, take_tabs, merge_global_options, put_entries, merge_object_options,
}

module _ (P : Platform) where
  as_int64 : Option P.floats.Double → Option P.Value
  as_int64 none = none
  as_int64 (some number) = some (P.of_int64 (P.floats.to_int64 number))

  as_tab : Option Bool → Option P.Value
  as_tab none = none
  as_tab (some use_tabs) = some (P.of_string (if use_tabs then text "Always" else text "Never"))

  not_null : Option P.Value → Option P.Value
  not_null none = none
  not_null (some value) = if P.get_as_null value then none else some value

  -- What a global option of dprint says of a clang-format option, where that is not set.
  pub number_option : P.Object → Bytes → Option P.Value
  unfolding as_int64 not_null
  number_option global key = as_int64 (parsed_number P (not_null (P.find global key)))

  pub tab_option : P.Object → Option P.Value
  unfolding as_tab not_null
  tab_option global = as_tab (parsed_bool P (not_null (P.find global (text "useTabs"))))

  pub at_key : Bytes → Bytes → Option P.Value → Option P.Value
  at_key key k value = if same key k then value else none

  -- The table of README.md: the clang-format option that a global option stands in for.
  pub global_option : P.Object → Bytes → Option P.Value
  global_option global k =
      or_else (at_key (text "ColumnLimit") k (number_option global (text "lineWidth"))) (
        or_else (at_key (text "IndentWidth") k (number_option global (text "indentWidth")))
          (at_key (text "UseTab") k (tab_option global)))

  -- A value that is no null and is taken for a number.
  pub number_option-some :
      (global : P.Object) (key : Bytes) (value : P.Value) (number : P.floats.Double)
      → P.find global key ≡ some value
      → P.get_as_null value ≡ false
      → parse_number_value P value ≡ some number
      → number_option global key ≡ some (P.of_int64 (P.floats.to_int64 number))
  unfolding number_option not_null parsed_number as_int64
  number_option-some global key value number found set e = rw (found, set, e)

  pub global_option-width :
      (global : P.Object) (v : P.Value)
      → number_option global (text "lineWidth") ≡ some v
      → global_option global (text "ColumnLimit") ≡ some v
  unfolding global_option at_key text same
  global_option-width global v e = rw e

  module _ (J : IsJson P) where
    no_number_option : (gk : Bytes) → number_option P.empty gk ≡ none
    unfolding number_option not_null parsed_number as_int64
    no_number_option gk = rw (J.find-empty gk) refl

    no_tab_option : tab_option P.empty ≡ none
    unfolding tab_option not_null parsed_bool as_tab
    no_tab_option = rw (J.find-empty (text "useTabs")) refl

    pub no_global_option : (k : Bytes) → global_option P.empty k ≡ none
    unfolding global_option at_key
    no_global_option k = ground (
      arith,
      no_number_option (text "lineWidth"),
      no_number_option (text "indentWidth"),
      no_tab_option,
    )

    find-put_entries :
        (es : List (Bytes × P.Value)) (o : P.Object) (k : Bytes)
        → NodupKeys es
        → P.find (put_entries P es o) k ≡ or_else (lookup k es) (P.find o k)
    unfolding put_entries
    find-put_entries [] o k u = refl
    find-put_entries ((j, v) ∷ es) o k (fresh, u) =
        ground (arith, find-put_entries es (P.put o j v) k u, J.find-put o j k v, same_iff j k)

    -- Merging an object lets its entries win.
    pub find-merge_object :
        (source o : P.Object) (k : Bytes)
        → P.find (merge_object_options P source o) k ≡ or_else (P.find source k) (P.find o k)
    unfolding merge_object_options
    find-merge_object source o k =
        rw (find-put_entries (P.entries source) o k (J.entries-NodupKeys source), J.lookup-entries)

    -- The part that writes, on what was read of the global option.
    find-put_number :
        (gk ck : Bytes) (r : Option P.floats.Double) (g : Gathered P) (k : Bytes)
        → P.find g.0 ck ≡ none
        → P.find (put_number P gk ck r g).0 k ≡ or_else (P.find g.0 k) (at_key ck k (as_int64 r))
    unfolding put_number at_key as_int64
    find-put_number gk ck none g k free = ground arith
    find-put_number gk ck (some n) g k free =
        ground (arith, J.find-put g.0 ck k (P.of_int64 (P.floats.to_int64 n)), same_iff ck k)

    find-take_value :
        (gk ck : Bytes) (v : Option P.Value) (g : Gathered P) (k : Bytes)
        → P.find
            (if skips P v (P.find g.0 ck) then g else put_number P gk ck (parsed_number P v) g).0
            k
          ≡ or_else (P.find g.0 k) (at_key ck k (as_int64 (parsed_number P (not_null v))))
    unfolding skips parsed_number not_null at_key as_int64
    find-take_value gk ck none g k = ground arith
    find-take_value gk ck (some v) g k = elim (Option-cases (P.find g.0 ck)) [
      | inl free ↦ ground (arith, find-put_number gk ck (parse_number_value P v) g k free)
      | inr (old, taken) ↦ ground (arith, same_iff ck k)
    ]

    find-take_number :
        (global : P.Object) (gk ck : Bytes) (g : Gathered P) (k : Bytes)
        → P.find (take_number P global gk ck g).0 k
          ≡ or_else (P.find g.0 k) (at_key ck k (number_option global gk))
    unfolding take_number number_option
    find-take_number global gk ck g k = find-take_value gk ck (P.find global gk) g k

    find-put_tabs :
        (r : Option Bool) (g : Gathered P) (k : Bytes)
        → P.find g.0 (text "UseTab") ≡ none
        → P.find (put_tabs P r g).0 k ≡ or_else (P.find g.0 k) (at_key (text "UseTab") k (as_tab r))
    unfolding put_tabs at_key as_tab
    find-put_tabs none g k free = ground arith
    find-put_tabs (some b) g k free = ground (
      arith,
      J.find-put g.0 (text "UseTab") k (P.of_string (if b then text "Always" else text "Never")),
      same_iff (text "UseTab") k,
    )

    find-take_tab_value :
        (v : Option P.Value) (g : Gathered P) (k : Bytes)
        → P.find
            (if skips P v (P.find g.0 (text "UseTab")) then g else put_tabs P (parsed_bool P v) g).0
            k
          ≡ or_else (P.find g.0 k) (at_key (text "UseTab") k (as_tab (parsed_bool P (not_null v))))
    unfolding skips parsed_bool not_null at_key as_tab
    find-take_tab_value none g k = ground arith
    find-take_tab_value (some v) g k = elim (Option-cases (P.find g.0 (text "UseTab"))) [
      | inl free ↦ ground (arith, find-put_tabs (parse_bool_value P v) g k free)
      | inr (old, taken) ↦ ground (arith, same_iff (text "UseTab") k)
    ]

    -- An option that is set keeps its value, and one that is not has the value that the global
    -- options of dprint give it, if they do.
    pub find-merge_global :
        (global : P.Object) (g : Gathered P) (k : Bytes)
        → P.find (merge_global_options P global g).0 k
          ≡ or_else (P.find g.0 k) (global_option global k)
    unfolding merge_global_options take_tabs global_option tab_option
    find-merge_global global g k =
        let width = take_number P global (text "lineWidth") (text "ColumnLimit") g in
        let indent = take_number P global (text "indentWidth") (text "IndentWidth") width in
        ground (
          arith,
          find-take_tab_value (P.find global (text "useTabs")) indent k,
          find-take_number global (text "indentWidth") (text "IndentWidth") width k,
          find-take_number global (text "lineWidth") (text "ColumnLimit") g k,
        )
