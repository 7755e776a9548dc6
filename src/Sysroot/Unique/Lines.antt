-- ===== src/Sysroot/Unique/Lines.antt =====
-- Reading the lines of a header that has just been entered, and the types that they define.
use dprint_clang_format.Base.{
  Run, done, if◌then◌else◌, ◌≡◌, refl, sym, ◌⊎◌, inl, inr, Bool, true, false, Option, none, some,
  List, ◌∷◌,
}
use mathlib.Core.Path.{subst}
use Prim.Native.String.{String}
use dprint_clang_format.Sysroot.Syntax.{Line}
use dprint_clang_format.Sysroot.Preprocess.{find_in, read_line, Reading, is_active, is_defined}
use dprint_clang_format.Sysroot.Preprocess.Later.{Grows, from_done}
use dprint_clang_format.Sysroot.Complete.{WellKept}
use dprint_clang_format.Sysroot.Unique.{Key, Keyed, Once, key_owner, key_in, with_key, key_in-with}

-- What becomes of the declarations at a line that includes nothing.
abbrev pub MayAdd : Line → Reading → Reading → Type 0
MayAdd line r s = (s.declared ≡ r.declared) ⊎ (s.declared ≡ line ∷ r.declared)

may_add :
    (b : Bool) (line : Line) (r s : Reading)
    → done (if b then record r { declared = line ∷ r.declared } else r) ≡ done s
    → MayAdd line r s
may_add true line r s e = from_done (MayAdd line r) (inr refl) e
may_add false line r s e = from_done (MayAdd line r) (inl refl) e

may_define :
    (b : Bool) (line : Line) (r r' s : Reading)
    → r'.declared ≡ r.declared
    → done (if b then r' else r) ≡ done s
    → MayAdd line r s
may_define true line r r' s q e = from_done (MayAdd line r) (inl q) e
may_define false line r r' s q e = from_done (MayAdd line r) (inl refl) e

-- The header that the line includes, if it does.
abbrev pub included : Line → Option String
included (Line.include name) = some name
included line = none

pub read_line-MayAdd :
    (enter : String → Reading → Run Reading) (line : Line) (r s : Reading)
    → included line ≡ none
    → read_line enter line r ≡ done s
    → MayAdd line r s
unfolding read_line
read_line-MayAdd enter (Line.include n) r s i e = cc
read_line-MayAdd enter (Line.ifndef n) r s i e = from_done (MayAdd (Line.ifndef n) r) (inl refl) e
read_line-MayAdd enter (Line.ifdef n) r s i e = from_done (MayAdd (Line.ifdef n) r) (inl refl) e
read_line-MayAdd enter Line.otherwise r s i e = from_done (MayAdd Line.otherwise r) (inl refl) e
read_line-MayAdd enter Line.endif r s i e = from_done (MayAdd Line.endif r) (inl refl) e
read_line-MayAdd enter (Line.include_next n) r s i e =
    from_done (MayAdd (Line.include_next n) r) (inl refl) e
read_line-MayAdd enter (Line.define_empty n) r s i e = may_define (is_active r) _ r _ s refl e
read_line-MayAdd enter (Line.define n x) r s i e = may_define (is_active r) _ r _ s refl e
read_line-MayAdd enter (Line.define_call n p x) r s i e = may_define (is_active r) _ r _ s refl e
read_line-MayAdd enter Line.extern_c r s i e = may_add (is_active r) _ r s e
read_line-MayAdd enter Line.close_extern_c r s i e = may_add (is_active r) _ r s e
read_line-MayAdd enter (Line.typedef n t) r s i e = may_add (is_active r) _ r s e
read_line-MayAdd enter (Line.struct n fs) r s i e = may_add (is_active r) _ r s e
read_line-MayAdd enter (Line.typedef_struct n fs) r s i e = may_add (is_active r) _ r s e
read_line-MayAdd enter (Line.opaque n) r s i e = may_add (is_active r) _ r s e
read_line-MayAdd enter (Line.variable n t) r s i e = may_add (is_active r) _ r s e
read_line-MayAdd enter (Line.declare p) r s i e = may_add (is_active r) _ r s e

module _ (table : List (String × List Line)) (t : WellKept table) where
  -- The guard of the header is defined.
  abbrev pub Begun : String → Reading → Type 0
  Begun name r =
      (lines : List Line) (found : find_in name table ≡ some lines)
      → is_defined (t.guarded name lines found).guard r ≡ true

  -- A type is defined only by a header that has been begun.
  abbrev pub Owned : Reading → Type 0
  Owned r =
      (k : Key) (name : String) → key_owner table k ≡ some name → Keyed k r.declared → Begun name r

  -- No type has been added of a header that had been begun.
  abbrev pub Adds : Reading → Reading → Type 0
  Adds r s =
      (k : Key) (name : String)
      → key_owner table k ≡ some name
      → Begun name r
      → Keyed k s.declared
      → Keyed k r.declared

  -- The state in the midst of a header: `keys` are the types of the lines so far.
  pub record Midst (header : String) (base : Reading) (keys : List Key) (s : Reading) : Type 0 where
    pub owned : Owned s
    pub once : Once s.declared
    pub mine :
        (k : Key) → key_owner table k ≡ some header → Keyed k s.declared → key_in k keys ≡ true
    pub adds : Adds base s
    pub begun : Begun header s
    pub still : Grows base s

  pub Begun-Grows : (name : String) (r s : Reading) → Grows r s → Begun name r → Begun name s
  Begun-Grows name r s grows h lines found = grows _ (h lines found)

  Keyed-same :
      (k : Key) (r s : Reading) → s.declared ≡ r.declared → Keyed k s.declared → Keyed k r.declared
  Keyed-same k r s e h = subst (Keyed k) e h

  -- A line that declares nothing.
  pub Midst-same :
      (header : String) (base : Reading) (keys : List Key) (o : Option Key) (r s : Reading)
      → Midst header base keys r
      → s.declared ≡ r.declared
      → Grows r s
      → Midst header base (with_key o keys) s
  Midst-same header base keys o r s h e grows = record {
    owned = λ k name own there.
        Begun-Grows name r s grows (h.owned k name own (Keyed-same k r s e there));
    once = subst Once (sym e) h.once;
    mine = λ k own there. key_in-with o k keys (h.mine k own (Keyed-same k r s e there));
    adds = λ k name own begun there. h.adds k name own begun (Keyed-same k r s e there);
    begun = Begun-Grows header r s grows h.begun;
    still = λ k d. grows k (h.still k d);
  }
