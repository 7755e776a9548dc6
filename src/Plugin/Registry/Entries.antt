-- ===== src/Plugin/Registry/Entries.antt =====
-- What holds of every entry of the table in src/dprint_plugin.cpp.
use dprint_clang_format.Base.{
  ◌==◌, Bool-cases, is_some, All-append, All, same, ℕ, ◌≡◌, inl, inr, some, List, [], ◌∷◌,
}
use mathlib.Core.Path.{subst}
use mathlib.Core.Option.{some-injective}
use dprint_clang_format.Plugin.Platform.{Platform}
use dprint_clang_format.Plugin.State.{RegisteredConfig}
use dprint_clang_format.Plugin.Registry.{find_config, assign_found, upsert_config, erase_config}

module _ {P : Platform} (Q : RegisteredConfig P → Type 0) where
  All-assign :
      (id : ℕ) (entry : RegisteredConfig P) (configs : List (RegisteredConfig P))
      → Q entry
      → All Q configs
      → All Q (assign_found id entry configs)
  unfolding assign_found
  All-assign id entry [] q h = h
  All-assign id entry (c ∷ rest) q (hc, h) = elim (Bool-cases (c.id == id)) [
    | inl e ↦ rw e (q, h)
    | inr e ↦ rw e (hc, All-assign id entry rest q h)
  ]

  pub All-upsert :
      (id : ℕ) (entry : RegisteredConfig P) (configs : List (RegisteredConfig P))
      → Q entry
      → All Q configs
      → All Q (upsert_config id entry configs)
  unfolding upsert_config
  All-upsert id entry configs q h = elim (Bool-cases (is_some (find_config id configs))) [
    | inl e ↦ rw e (All-assign id entry configs q h)
    | inr e ↦ rw e ((All-append Q configs (entry ∷ [])).1 (h, (q, tt)))
  ]

  pub All-erase :
      (id : ℕ) (configs : List (RegisteredConfig P))
      → All Q configs
      → All Q (erase_config id configs)
  unfolding erase_config
  All-erase id [] h = h
  All-erase id (c ∷ rest) (hc, h) = elim (Bool-cases (c.id == id)) [
    | inl e ↦ rw e h
    | inr e ↦ rw e (hc, All-erase id rest h)
  ]

  pub All-find :
      (id : ℕ) (configs : List (RegisteredConfig P)) (c : RegisteredConfig P)
      → All Q configs
      → find_config id configs ≡ some c
      → Q c
  unfolding find_config
  All-find id [] c h e = cc
  All-find id (d ∷ rest) c (hd, h) e = elim (Bool-cases (d.id == id)) [
    | inl same ↦ subst Q (some-injective d c (rw same at e)) hd
    | inr other ↦ All-find id rest c h (rw other at e)
  ]
