-- ===== src/Tests/Toy.antt =====
-- A small stand-in for what src/dprint_plugin.cpp takes from elsewhere: JSON objects as lists of
-- entries, a formatter that drops spaces, and integers in place of floating point.
use dprint_clang_format.Base.{
  ◌+◌, ◌*◌, ◌≡◌, refl, Bool, true, false, Option, none, some, List, [], ◌∷◌, ◌++◌, Bytes, text,
  same, same_iff, same_refl, Bool-cases, inl, inr, if◌then◌else◌, ◌&&◌, leb, ◌==◌, arith,
}
use dprint_clang_format.Base.Int.{ℤ, pos, pos_part, neg_part, sub_ℕ, neg, add_ℤ}
use dprint_clang_format.Runtime.Floats.{Floats, IsExact}
use dprint_clang_format.Plugin.Platform.{
  Platform, IsJson, Expected, parsed, failed, lookup, NodupKeys,
}

abbrev times : ℤ → ℤ → ℤ
times a b =
    sub_ℕ (pos_part a * pos_part b + neg_part a * neg_part b)
      (pos_part a * neg_part b + neg_part a * pos_part b)

abbrev pub toy_floats : Floats
toy_floats = record {
  Double = ℤ;
  Single = ℤ;
  of_nat = λ n. pos n;
  add = add_ℤ;
  sub = λ a b. add_ℤ a (neg b);
  mul = times;
  negate = neg;
  tenth = pos 0;
  floor = λ a. a;
  narrow = λ a. a;
  to_int64 = λ a. a;
}

pub toy_floats-IsExact : IsExact toy_floats
toy_floats-IsExact = record {
  add_nat = λ a b h. ground arith;
  mul_nat = λ a b h. ground arith;
  to_int64-of_nat = λ n h. refl;
}

mutual
  pub data Value : Type 0 where
    null : Value
    boolean : Bool → Value
    number : ℤ → Value
    string : Bytes → Value
    object : Object → Value

  pub data Object : Type 0 where
    nothing : Object
    with : Bytes → Value → Object → Object

abbrev find : Object → Bytes → Option Value
find nothing k = none
find (with j v o) k = if same j k then some v else find o k

abbrev remove : Bytes → List (Bytes × Value) → List (Bytes × Value)
remove k [] = []
remove k ((j, v) ∷ es) = if same j k then remove k es else (j, v) ∷ remove k es

abbrev entries : Object → List (Bytes × Value)
entries nothing = []
entries (with k v o) = (k, v) ∷ remove k (entries o)

abbrev print : Object → Bytes
print nothing = text "{}"
print (with k v o) = k ++ (b',' ∷ print o)

abbrev string_of : Value → Option Bytes
string_of (string s) = some s
string_of _ = none

abbrev number_of : Value → Option ℤ
number_of (number n) = some n
number_of _ = none

abbrev boolean_of : Value → Option Bool
boolean_of (boolean b) = some b
boolean_of _ = none

abbrev object_of : Value → Option Object
object_of (object o) = some o
object_of _ = none

abbrev is_null : Value → Bool
is_null null = true
is_null _ = false

abbrev object_at : Option Value → Option Object
object_at none = none
object_at (some v) = object_of v

abbrev is_nothing : Object → Bool
is_nothing nothing = true
is_nothing (with k v o) = false

-- The payloads that the runs use.
abbrev pub styled : Object
styled = with (text "ColumnLimit") (number (pos 40)) nothing

abbrev pub wide : Object
wide = with (text "lineWidth") (number (pos 120)) (with (text "useTabs") (boolean true) nothing)

abbrev pub from_file : Object
from_file = with (text "BasedOnStyle") (string (text "FILE")) nothing

abbrev pub global_only : Object
global_only = with (text "global") (object wide) nothing

abbrev pub full : Object
full = with (text "plugin") (object styled) global_only

abbrev parse : Bytes → Expected Value
parse json =
    if same json (text "full")
    then parsed (object full)
    else if same json (text "global only")
    then parsed (object global_only)
    else if same json (text "wide")
    then parsed (object wide)
    else if same json (text "null")
    then parsed null
    else failed (text "expected a value")

abbrev lower : Bytes → Bytes
lower [] = []
lower (c ∷ s) = (if leb b'A' c && leb c b'Z' then c + 32 else c) ∷ lower s

abbrev without_spaces : Bytes → Bytes
without_spaces [] = []
without_spaces (c ∷ s) = if c == 32 then without_spaces s else c ∷ without_spaces s

abbrev replaced : Bytes → Option Bytes → Option Bytes
replaced code none = some code
replaced code (some code') = some code'

abbrev later : Option Bytes → Option Bytes → Option Bytes
later none r = r
later (some code) none = some code
later (some code) (some code') = some code'

abbrev pub toy : Platform
toy = record {
  floats = toy_floats;
  Value = Value;
  Object = Object;
  get_as_null = is_null;
  get_as_boolean = boolean_of;
  get_as_number = number_of;
  get_as_string = string_of;
  get_as_object = object_of;
  of_string = string;
  of_int64 = number;
  empty = nothing;
  is_empty_object = is_nothing;
  find = find;
  get_object = λ o k. object_at (find o k);
  put = λ o k v. with k v o;
  entries = entries;
  print = print;
  parse = parse;
  equals_insensitive = λ a b. same (lower a) (lower b);
  Style = Bytes;
  Language = Bytes;
  get_llvm_style = text "LLVM";
  parse_configuration = λ config style. (style ++ config, none);
  guess_language = λ path code. path;
  set_language = λ style language. style ++ language;
  Replacements = Option Bytes;
  sort_includes = λ style code ranges name. none;
  reformat = λ style code ranges name. some (without_spaces code);
  apply_all_replacements = replaced;
  ranges_after_replacements = λ r ranges. ranges;
  merge = later;
  plugin_version = text "1.0.0";
  schema_base_url = text "https://example.org";
}

lookup-remove :
    (k j : Bytes) (es : List (Bytes × Value))
    → lookup j (remove k es) ≡ (if same k j then none else lookup j es)
lookup-remove k j [] = ground arith
lookup-remove k j ((l, v) ∷ es) =
    ground (arith, lookup-remove k j es, same_iff l k, same_iff l j, same_iff k j)

lookup-entries : (o : Object) (k : Bytes) → lookup k (entries o) ≡ find o k
lookup-entries nothing k = refl
lookup-entries (with j v o) k = ground (arith, lookup-remove j k (entries o), lookup-entries o k)

NodupKeys-remove : (k : Bytes) (es : List (Bytes × Value)) → NodupKeys es → NodupKeys (remove k es)
NodupKeys-remove k [] u = u
NodupKeys-remove k ((j, v) ∷ es) (fresh, u) = elim (Bool-cases (same j k)) [
  | inl e ↦ rw e (NodupKeys-remove k es u)
  | inr e ↦ rw e (ground (arith, lookup-remove k j es), NodupKeys-remove k es u)
]

entries-NodupKeys : (o : Object) → NodupKeys (entries o)
entries-NodupKeys nothing = tt
entries-NodupKeys (with k v o) = (
  rw (lookup-remove k k (entries o), same_refl k),
  NodupKeys-remove k (entries o) (entries-NodupKeys o),
)

is_nothing-find : (o : Object) (k : Bytes) → is_nothing o ≡ true → find o k ≡ none
is_nothing-find nothing k e = refl
is_nothing-find (with j v o) k e = cc

find-is_nothing : (o : Object) → ((k : Bytes) → find o k ≡ none) → is_nothing o ≡ true
find-is_nothing nothing h = refl
find-is_nothing (with j v o) h = absurd (ground (arith, h j, same_refl j))

pub toy-IsJson : IsJson toy
toy-IsJson = record {
  find-empty = λ k. refl;
  find-put = λ o k j v. refl;
  lookup-entries = lookup-entries;
  entries-NodupKeys = entries-NodupKeys;
  is_empty-find = is_nothing-find;
  find-is_empty = find-is_nothing;
}

-- An object as a value.
abbrev pub toy_object : Object → toy.Value
toy_object = object
