-- ===== src/Sysroot/Unique.antt =====
-- The types that headers under support/wasm-sysroot/include define: typedef names and tags, which C keeps
-- apart, and the header to which each belongs.
pub mod Lines
pub mod Added
pub mod Headers
use dprint_clang_format.Base.{
  if◌then◌else◌, Bool-cases, ◌≡◌, refl, ap, inl, inr, Bool, true, false, not, ◌&&◌, ◌||◌, Option,
  none, some, List, [], ◌∷◌,
}
use Prim.Native.String.{String}
use text.Mathlib.Text.{◌==◌}
use text.Mathlib.TextEquality.{eq_iff}
use mathlib.Core.List.{Memᴰ}
use dprint_clang_format.Sysroot.Syntax.{Line}

-- A tag or a typedef name.
pub data Key : Type 0 where
  tagged named : String → Key

unfoldable pub same_key : Key → Key → Bool
same_key (tagged a) (tagged b) = a == b
same_key (tagged a) (named b) = false
same_key (named a) (tagged b) = false
same_key (named a) (named b) = a == b

-- The type that a line defines.
abbrev pub key_of : Line → Option Key
key_of (Line.typedef name t) = some (named name)
key_of (Line.struct name fields) = some (tagged name)
key_of (Line.typedef_struct name fields) = some (named name)
key_of (Line.opaque name) = some (named name)
key_of line = none

abbrev pub Keyed : Key → List Line → Type 0
Keyed k lines = (line : Line) × Memᴰ line lines × (key_of line ≡ some k)

-- In a list of declarations no type is defined twice.
unfoldable pub Once : List Line → Type 0
Once [] = Unit
Once (line ∷ before) = ((k : Key) → key_of line ≡ some k → ¬ Keyed k before) × Once before

abbrev is_key : Key → Option Key → Bool
is_key k none = false
is_key k (some other) = same_key other k

unfoldable pub has_key : Key → List Line → Bool
has_key k [] = false
has_key k (line ∷ lines) = is_key k (key_of line) || has_key k lines

-- The first header that defines the type.
unfoldable pub key_owner : List (String × List Line) → Key → Option String
unfolding has_key same_key
key_owner [] k = none
key_owner ((name, lines) ∷ entries) k = if has_key k lines then some name else key_owner entries k

unfoldable pub key_in : Key → List Key → Bool
unfolding same_key
key_in k [] = false
key_in k (other ∷ keys) = same_key other k || key_in k keys

abbrev pub is_owner : String → Option String → Bool
is_owner name none = false
is_owner name (some other) = other == name

abbrev pub with_key : Option Key → List Key → List Key
with_key none keys = keys
with_key (some k) keys = k ∷ keys

abbrev pub key_fits : (Key → Option String) → String → Option Key → List Key → Bool
key_fits own name none keys = true
key_fits own name (some k) keys = is_owner name (own k) && not (key_in k keys)

-- Each type of the lines belongs to the header and is defined by one of them, whichever conditionals
-- hold.
unfoldable pub defines_once : (Key → Option String) → String → List Line → List Key → Bool
unfolding key_in
defines_once own name [] keys = true
defines_once own name (line ∷ lines) keys =
    key_fits own name (key_of line) keys
    && defines_once own name lines (with_key (key_of line) keys)

same_key_sound : (a b : Key) → same_key a b ≡ true → a ≡ b
unfolding same_key
same_key_sound (tagged a) (tagged b) e = ap tagged ((eq_iff a b).0 e)
same_key_sound (tagged a) (named b) e = cc
same_key_sound (named a) (tagged b) e = cc
same_key_sound (named a) (named b) e = ap named ((eq_iff a b).0 e)

same_key_refl : (a : Key) → same_key a a ≡ true
unfolding same_key
same_key_refl (tagged a) = (eq_iff a a).1 refl
same_key_refl (named a) = (eq_iff a a).1 refl

pub key_in-here : (k : Key) (keys : List Key) → key_in k (k ∷ keys) ≡ true
unfolding key_in
key_in-here k keys = rw (same_key_refl k)

pub key_in-later :
    (k other : Key) (keys : List Key) → key_in k keys ≡ true → key_in k (other ∷ keys) ≡ true
unfolding key_in
key_in-later k other keys h = elim (Bool-cases (same_key other k)) [ inl e ↦ rw e | inr e ↦ rw e h ]

pub key_in-with :
    (o : Option Key) (k : Key) (keys : List Key)
    → key_in k keys ≡ true
    → key_in k (with_key o keys) ≡ true
key_in-with none k keys h = h
key_in-with (some other) k keys h = key_in-later k other keys h

pub is_owner_sound : (name : String) (o : Option String) → is_owner name o ≡ true → o ≡ some name
is_owner_sound name none h = cc
is_owner_sound name (some other) h = ap some ((eq_iff other name).0 h)
