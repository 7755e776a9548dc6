-- ===== src/Plugin/Escape/Members.antt =====
-- JSON objects of the kind that get_plugin_info of src/dprint_plugin.cpp writes: the members hold
-- strings or arrays of strings, in which nothing is escaped.
use dprint_clang_format.Base.{
  length, All, ◌<◌, leb, and_left, and_right, ◌==◌, if◌then◌else◌, all_of, Bytes, ℕ, zero, suc, ◌≡◌,
  refl, Bool, true, false, not, ◌&&◌, Option, none, some, List, [], ◌∷◌, ◌++◌, arith,
}
use dprint_clang_format.Plugin.Escape.Roundtrip.{◌>>=◌, read_string}

pub data Json : Type 0 where
  string : Bytes → Json
  strings : List Bytes → Json

-- A string, and what follows it.
abbrev pub write_text : Bytes → Bytes → Bytes
write_text s rest = 34 ∷ (s ++ (34 ∷ rest))

abbrev pub write_more : List Bytes → Bytes → Bytes
write_more [] rest = b']' ∷ rest
write_more (s ∷ ss) rest = b',' ∷ write_text s (write_more ss rest)

abbrev pub write_array : List Bytes → Bytes → Bytes
write_array [] rest = b'[' ∷ (b']' ∷ rest)
write_array (s ∷ ss) rest = b'[' ∷ write_text s (write_more ss rest)

abbrev pub write_value : Json → Bytes → Bytes
write_value (string s) rest = write_text s rest
write_value (strings ss) rest = write_array ss rest

abbrev pub write_member : Bytes × Json → Bytes → Bytes
write_member (k, v) rest = write_text k (b':' ∷ write_value v rest)

abbrev pub write_members : List (Bytes × Json) → Bytes → Bytes
write_members [] rest = b'}' ∷ rest
write_members (m ∷ ms) rest = b',' ∷ write_member m (write_members ms rest)

-- An object with one member at least.
abbrev pub write_object : Bytes × Json → List (Bytes × Json) → Bytes
write_object m ms = b'{' ∷ write_member m (write_members ms [])

-- What follows the byte.
after_byte : ℕ → Bytes → Option Bytes
after_byte c [] = none
after_byte c (d ∷ s) = if c == d then some s else none

read_text : Bytes → Option (Bytes × Bytes)
unfolding after_byte
read_text s = do s ← after_byte 34 s; read_string false s

read_more : ℕ → Bytes → Option (List Bytes × Bytes)
unfolding read_text
read_more zero s = none
read_more (suc fuel) [] = none
read_more (suc fuel) (c ∷ s) =
    let item = do (t, s) ← read_text s; (ts, s) ← read_more fuel s; some (t ∷ ts, s)
    in if c == b']' then some ([], s) else if c == b',' then item else none

read_array : ℕ → Bytes → Option (List Bytes × Bytes)
unfolding read_more read_text
read_array fuel [] = none
read_array fuel (c ∷ s) =
    let items = do (t, s) ← read_text (c ∷ s); (ts, s) ← read_more fuel s; some (t ∷ ts, s)
    in if c == b']' then some ([], s) else items

-- The value, of which the first byte tells the kind.
read_value : ℕ → Bytes → Option (Json × Bytes)
unfolding read_array
read_value fuel [] = none
read_value fuel (c ∷ s) =
    let one = (do (t, s) ← read_string false s; some (string t, s)) in
    let many = (do (ts, s) ← read_array fuel s; some (strings ts, s)) in
    if c == 34 then one else if c == b'[' then many else none

read_member : ℕ → Bytes → Option ((Bytes × Json) × Bytes)
unfolding read_value read_text after_byte
read_member fuel s = do
  (k, s) ← read_text s
  s ← after_byte b':' s
  (v, s) ← read_value fuel s
  some ((k, v), s)

read_members : ℕ → ℕ → Bytes → Option (List (Bytes × Json) × Bytes)
unfolding read_member
read_members items zero s = none
read_members items (suc fuel) [] = none
read_members items (suc fuel) (c ∷ s) =
    let more = do
      (m, s) ← read_member items s
      (ms, s) ← read_members items fuel s
      some (m ∷ ms, s)
    in if c == b'}' then some ([], s) else if c == b',' then more else none

-- An object with one member at least, and what follows it. The fuel bounds the items of an array and
-- the members of the object.
unfoldable pub read_object : ℕ → ℕ → Bytes → Option (List (Bytes × Json) × Bytes)
unfolding read_members
read_object items fuel s = do
  s ← after_byte b'{' s
  (m, s) ← read_member items s
  (ms, s) ← read_members items fuel s
  some (m ∷ ms, s)

-- A byte that stands in a JSON string as it is.
abbrev pub is_plain : ℕ → Bool
is_plain c = leb 32 c && (not (c == 34) && not (c == b'\\'))

abbrev pub IsPlain : Bytes → Type 0
IsPlain s = all_of is_plain s ≡ true

read_string-plain :
    (s rest : Bytes) → IsPlain s → read_string false (s ++ (34 ∷ rest)) ≡ some (s, rest)
unfolding read_string all_of
read_string-plain [] rest h = refl
read_string-plain (c ∷ s) rest h =
    let later = read_string-plain s rest (and_right (is_plain c) _ h) in
    let here = and_left (is_plain c) _ h in ground arith

read_text-write : (s rest : Bytes) → IsPlain s → read_text (write_text s rest) ≡ some (s, rest)
unfolding read_text after_byte
read_text-write s rest h = read_string-plain s rest h

read_more-write :
    (fuel : ℕ) (ss : List Bytes) (rest : Bytes)
    → All IsPlain ss
    → length ss < fuel
    → read_more fuel (write_more ss rest) ≡ some (ss, rest)
unfolding read_more
read_more-write zero ss rest h e = absurd (omega arith)
read_more-write (suc fuel) [] rest h e = refl
read_more-write (suc fuel) (s ∷ ss) rest (h, hs) e =
    rw (read_text-write s (write_more ss rest) h, read_more-write fuel ss rest hs (omega arith))

-- A value that can be read back.
abbrev pub IsPlainValue : ℕ → Json → Type 0
IsPlainValue fuel (string s) = IsPlain s
IsPlainValue fuel (strings ss) = All IsPlain ss × (length ss < fuel)

read_value-write :
    (fuel : ℕ) (v : Json) (rest : Bytes)
    → IsPlainValue fuel v
    → read_value fuel (write_value v rest) ≡ some (v, rest)
unfolding read_value read_array
read_value-write fuel (string s) rest h = rw (read_string-plain s rest h)
read_value-write fuel (strings []) rest h = refl
read_value-write fuel (strings (s ∷ ss)) rest ((h, hs), e) =
    rw (read_text-write s (write_more ss rest) h, read_more-write fuel ss rest hs (omega arith))

abbrev pub IsPlainMember : ℕ → Bytes × Json → Type 0
IsPlainMember fuel (k, v) = IsPlain k × IsPlainValue fuel v

read_member-write :
    (fuel : ℕ) (m : Bytes × Json) (rest : Bytes)
    → IsPlainMember fuel m
    → read_member fuel (write_member m rest) ≡ some (m, rest)
unfolding read_member after_byte
read_member-write fuel (k, v) rest (h, g) =
    rw (read_text-write k (b':' ∷ write_value v rest) h, read_value-write fuel v rest g)

read_members-write :
    (items fuel : ℕ) (ms : List (Bytes × Json)) (rest : Bytes)
    → All (IsPlainMember items) ms
    → length ms < fuel
    → read_members items fuel (write_members ms rest) ≡ some (ms, rest)
unfolding read_members
read_members-write items zero ms rest h e = absurd (omega arith)
read_members-write items (suc fuel) [] rest h e = refl
read_members-write items (suc fuel) (m ∷ ms) rest (h, hs) e = rw (
  read_member-write items m (write_members ms rest) h,
  read_members-write items fuel ms rest hs (omega arith),
)

-- What is written is read back, given fuel for the items and the members.
pub read_object-write :
    (items fuel : ℕ) (m : Bytes × Json) (ms : List (Bytes × Json))
    → All (IsPlainMember items) (m ∷ ms)
    → length ms < fuel
    → read_object items fuel (write_object m ms) ≡ some (m ∷ ms, [])
unfolding read_object after_byte
read_object-write items fuel m ms (h, hs) e =
    rw (read_member-write items m (write_members ms []) h, read_members-write items fuel ms [] hs e)
