-- ===== src/Plugin/Resolve/Precedence.antt =====
-- Which options src/dprint_plugin.cpp resolves.
use dprint_clang_format.Base.{or_else, Bytes, ◌≡◌, refl, Option, none, some, arith}
use dprint_clang_format.Plugin.Platform.{Platform, IsJson}
use dprint_clang_format.Plugin.Options.Merge.{global_option, find-merge_object, find-merge_global}
use dprint_clang_format.Plugin.Resolve.{
  merge_override, gather, read_style, resolve_options, resolve_format_style,
}

or_else-none {ℓ} : {A : Type ℓ} (o : Option A) → or_else o none ≡ o
or_else-none none = refl
or_else-none (some a) = refl

or_else_assoc {ℓ} :
    {A : Type ℓ} (a b c : Option A) → or_else (or_else a b) c ≡ or_else a (or_else b c)
or_else_assoc none b c = refl
or_else_assoc (some x) b c = refl

module _ (P : Platform) where
  abbrev pub find_in : Option P.Object → Bytes → Option P.Value
  find_in none k = none
  find_in (some o) k = P.find o k

  pub resolved-options :
      (plugin global : P.Object) (over : Option P.Object)
      → (resolve_format_style P plugin global over).resolved ≡ (gather P plugin global over).0
  unfolding resolve_format_style resolve_options read_style
  resolved-options plugin global over = ground arith

  module _ (J : IsJson P) where
    find-merge_override :
        (over : Option P.Object) (o : P.Object) (k : Bytes)
        → P.find (merge_override P over o) k ≡ or_else (find_in over k) (P.find o k)
    unfolding merge_override
    find-merge_override none o k = refl
    find-merge_override (some source) o k = find-merge_object P J source o k

    -- The resolved options: an option has the value of the override, else that of the plugin's
    -- configuration, else the one that dprint's global options give it, and no other option is set.
    pub find-resolved :
        (plugin global : P.Object) (over : Option P.Object) (k : Bytes)
        → P.find (resolve_format_style P plugin global over).resolved k
          ≡ or_else (find_in over k) (or_else (P.find plugin k) (global_option P global k))
    unfolding gather
    find-resolved plugin global over k =
        rw
          (
            resolved-options plugin global over,
            find-merge_global P J global,
            find-merge_override,
            find-merge_object P J plugin P.empty k,
            J.find-empty k,
            or_else-none,
          )
          (or_else_assoc (find_in over k) (P.find plugin k) (global_option P global k))
