-- ===== src/Sysroot/Unique/Added.antt =====
-- A line that defines a type, in the midst of the header to which the type belongs.
use dprint_clang_format.Sysroot.Preprocess.Later.{
  split_then, read_line-Follows, from_done, Enters, Grows,
}
use dprint_clang_format.Sysroot.Unique.{
  defines_once, is_owner, is_owner_sound, with_key, key_fits, Key, key_of, Keyed, Once, key_owner,
  key_in, key_in-here, key_in-later,
}
use dprint_clang_format.Sysroot.Preprocess.{read_lines, is_active, read_line, Reading}
use dprint_clang_format.Base.{
  [], refl, Run, done, and_left, and_right, if◌then◌else◌, Option, ◌≡◌, sym, ap, ◌∙◌, ◌⊎◌, inl, inr,
  Bool, true, false, not, none, some, List, ◌∷◌,
}
use dprint_clang_format.Sysroot.Unique.Lines.{
  read_line-MayAdd, Midst-same, included, Adds, Owned, Begun, Midst, Begun-Grows,
}
use Prim.Native.String.{String}
use mathlib.Core.Path.{subst}
use mathlib.Core.Logic.{⊎_elim}
use mathlib.Core.List.Memᴰ
use dprint_clang_format.Sysroot.Syntax.{Line}
use dprint_clang_format.Sysroot.Complete.{WellKept}

Keyed-cons :
    (k : Key) (line : Line) (lines : List Line)
    → Keyed k (line ∷ lines)
    → (key_of line ≡ some k) ⊎ Keyed k lines
Keyed-cons k line lines (x, m, e) =
    ⊎_elim (λ q. inl (subst (λ y. key_of y ≡ some k) q e)) (λ n. inr (x, n, e)) (Memᴰ.cases_cons m)

clash : (b : Bool) → b ≡ true → not b ≡ true → ⊥
clash true e f = cc
clash false e f = cc

module _ (table : List (String × List Line)) (t : WellKept table) (header : String) (base : Reading)
    (fresh_header : ¬ Begun table t header base) where
  module _ (keys : List Key) (line : Line) (r : Reading)
      (h : Midst table t header base keys r) where
    abbrev Extended : Reading → Type 0
    Extended s = (s.declared ≡ line ∷ r.declared) × Grows r s

    -- The line defines nothing.
    added_none : (s : Reading) → key_of line ≡ none → Extended s → Midst table t header base keys s
    unfolding Once
    added_none s none_here (e, grows) =
        let back : (k : Key) → Keyed k s.declared → Keyed k r.declared = λ k there.
          ⊎_elim (λ q. absurd (differ (sym none_here ∙ q))) (λ n. n)
            (Keyed-cons k line r.declared (subst (Keyed k) e there)) in
        record {
          owned = λ k name own there.
              Begun-Grows table t name r s grows (h.owned k name own (back k there));
          once = subst Once (sym e) (λ k q. absurd (differ (sym none_here ∙ q)), h.once);
          mine = λ k own there. h.mine k own (back k there);
          adds = λ k name own begun there. h.adds k name own begun (back k there);
          begun = Begun-Grows table t header r s grows h.begun;
          still = λ k d. grows k (h.still k d);
        }
      where
        differ : {k : Key} → none ≡ some k → ⊥
        differ q = cc

    -- The line defines a type of the header that no earlier line has defined.
    added_some :
        (s : Reading) (new : Key)
        → key_of line ≡ some new
        → key_owner table new ≡ some header
        → not (key_in new keys) ≡ true
        → Extended s
        → Midst table t header base (new ∷ keys) s
    unfolding Once
    added_some s new here own_new unseen (e, grows) =
        let split : (k : Key) → Keyed k s.declared → (new ≡ k) ⊎ Keyed k r.declared = λ k there.
          ⊎_elim (λ q. inl (inner (sym here ∙ q))) inr
            (Keyed-cons k line r.declared (subst (Keyed k) e there)) in
        record {
          owned = λ k name own there.
              ⊎_elim
                (λ q.
                  subst (λ n. Begun table t n s)
                    (name_inner (sym own_new ∙ ap (key_owner table) q ∙ own))
                    (Begun-Grows table t header r s grows h.begun))
                (λ old. Begun-Grows table t name r s grows (h.owned k name own old))
                (split k there);
          once = subst Once (sym e) (
            λ k q old.
                clash (key_in new keys)
                  (h.mine new own_new (subst (λ x. Keyed x r.declared) (inner (sym q ∙ here)) old))
                  unseen,
            h.once,
          );
          mine = λ k own there.
              ⊎_elim (λ q. subst (λ x. key_in x (new ∷ keys) ≡ true) q (key_in-here new keys))
                (λ old. key_in-later k new keys (h.mine k own old)) (split k there);
          adds = λ k name own begun there.
              ⊎_elim
                (λ q. absurd (
                  fresh_header (
                    subst (λ n. Begun table t n base)
                      (name_inner (sym own ∙ ap (key_owner table) (sym q) ∙ own_new)) begun)))
                (h.adds k name own begun) (split k there);
          begun = Begun-Grows table t header r s grows h.begun;
          still = λ k d. grows k (h.still k d);
        }
      where
        inner : {a b : Key} → some a ≡ some b → a ≡ b
        inner q = cc

        name_inner : {a b : String} → some a ≡ some b → a ≡ b
        name_inner q = cc

  added :
      (keys : List Key) (line : Line) (r s : Reading) (o : Option Key)
      → key_of line ≡ o
      → key_fits (key_owner table) header o keys ≡ true
      → Midst table t header base keys r
      → (s.declared ≡ line ∷ r.declared) × Grows r s
      → Midst table t header base (with_key o keys) s
  added keys line r s none e fits h x = added_none keys line r h s e x
  added keys line r s (some new) e fits h x =
      added_some keys line r h s new e
        (is_owner_sound header (key_owner table new)
          (and_left (is_owner header (key_owner table new)) _ fits))
        (and_right (is_owner header (key_owner table new)) _ fits) x

  -- What including a header comes to.
  abbrev pub Includes : (String → Reading → Run Reading) → Type 0
  Includes enter =
      (name : String) (r s : Reading)
      → Owned table t r
      → Once r.declared
      → is_active r ≡ true
      → enter name r ≡ done s
      → Owned table t s × Once s.declared × Adds table t r s

  module _ (enter : String → Reading → Run Reading) (later : Enters enter)
      (includes : Includes enter) where
    include_step :
        (b : Bool) (name : String) (keys : List Key) (r s : Reading)
        → Midst table t header base keys r
        → is_active r ≡ b
        → (if b then enter name r else done r) ≡ done s
        → Midst table t header base keys s
    include_step false name keys r s h a e = from_done (Midst table t header base keys) h e
    include_step true name keys r s h a e =
        let (owned, once, adds) = includes name r s h.owned h.once a e in
        let grows = (later name r s e).1 in
        record {
          owned = owned;
          once = once;
          mine = λ k own there. h.mine k own (adds k header own h.begun there);
          adds = λ k name own begun there.
              h.adds k name own begun
                (adds k name own (Begun-Grows table t name base r h.still begun) there);
          begun = Begun-Grows table t header r s grows h.begun;
          still = λ k d. grows k (h.still k d);
        }

    other_step :
        (line : Line) (keys : List Key) (r s : Reading)
        → included line ≡ none
        → key_fits (key_owner table) header (key_of line) keys ≡ true
        → Midst table t header base keys r
        → read_line enter line r ≡ done s
        → Midst table t header base (with_key (key_of line) keys) s
    other_step line keys r s i fits h e =
        ⊎_elim (λ q. Midst-same table t header base keys (key_of line) r s h q grows)
          (λ q. added keys line r s (key_of line) refl fits h (q, grows))
          (read_line-MayAdd enter line r s i e)
      where
        grows : Grows r s
        grows = (read_line-Follows enter line r s later e).1

    line_step :
        (line : Line) (keys : List Key) (r s : Reading)
        → key_fits (key_owner table) header (key_of line) keys ≡ true
        → Midst table t header base keys r
        → read_line enter line r ≡ done s
        → Midst table t header base (with_key (key_of line) keys) s
    unfolding read_line
    line_step (Line.include n) keys r s fits h e = include_step (is_active r) n keys r s h refl e
    line_step (Line.ifndef n) keys r s fits h e = other_step (Line.ifndef n) keys r s refl fits h e
    line_step (Line.ifdef n) keys r s fits h e = other_step (Line.ifdef n) keys r s refl fits h e
    line_step Line.otherwise keys r s fits h e = other_step Line.otherwise keys r s refl fits h e
    line_step Line.endif keys r s fits h e = other_step Line.endif keys r s refl fits h e
    line_step (Line.include_next n) keys r s fits h e =
        other_step (Line.include_next n) keys r s refl fits h e
    line_step (Line.define_empty n) keys r s fits h e =
        other_step (Line.define_empty n) keys r s refl fits h e
    line_step (Line.define n x) keys r s fits h e =
        other_step (Line.define n x) keys r s refl fits h e
    line_step (Line.define_call n p x) keys r s fits h e =
        other_step (Line.define_call n p x) keys r s refl fits h e
    line_step Line.extern_c keys r s fits h e = other_step Line.extern_c keys r s refl fits h e
    line_step Line.close_extern_c keys r s fits h e =
        other_step Line.close_extern_c keys r s refl fits h e
    line_step (Line.typedef n x) keys r s fits h e =
        other_step (Line.typedef n x) keys r s refl fits h e
    line_step (Line.struct n fs) keys r s fits h e =
        other_step (Line.struct n fs) keys r s refl fits h e
    line_step (Line.typedef_struct n fs) keys r s fits h e =
        other_step (Line.typedef_struct n fs) keys r s refl fits h e
    line_step (Line.opaque n) keys r s fits h e = other_step (Line.opaque n) keys r s refl fits h e
    line_step (Line.variable n x) keys r s fits h e =
        other_step (Line.variable n x) keys r s refl fits h e
    line_step (Line.declare p) keys r s fits h e =
        other_step (Line.declare p) keys r s refl fits h e

    pub lines_step :
        (lines : List Line) (keys : List Key) (r s : Reading)
        → defines_once (key_owner table) header lines keys ≡ true
        → Midst table t header base keys r
        → read_lines enter lines r ≡ done s
        → (all : List Key) × Midst table t header base all s
    unfolding read_lines defines_once
    lines_step [] keys r s d h e =
        from_done (λ x. (all : List Key) × Midst table t header base all x) (keys, h) e
    lines_step (line ∷ lines) keys r s d h e =
        let (u, first, others) = split_then (read_line enter line r) (read_lines enter lines) s e in
        lines_step lines (with_key (key_of line) keys) u s
          (and_right (key_fits (key_owner table) header (key_of line) keys) _ d)
          (line_step line keys r u
            (and_left (key_fits (key_owner table) header (key_of line) keys) _ d) h first)
          others
