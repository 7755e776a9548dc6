-- ===== src/Plugin/Registry/Table.antt =====
-- The table of configurations in src/dprint_plugin.cpp as a map from ids.
use dprint_clang_format.Base.{
  ◌==◌, if◌then◌else◌, Bool-cases, Option-cases, or_else, is_some, same, ℕ, ◌≡◌, refl, inl, inr,
  ◌&&◌, none, some, List, [], ◌∷◌, ◌++◌, arith,
}
use dprint_clang_format.Plugin.Platform.{Platform}
use dprint_clang_format.Plugin.State.{RegisteredConfig}
use dprint_clang_format.Plugin.Registry.{find_config, assign_found, upsert_config, erase_config}

-- No id is registered twice.
abbrev pub UniqueIds : {P : Platform} → List (RegisteredConfig P) → Type 0
UniqueIds [] = Unit
UniqueIds (config ∷ rest) = (find_config config.id rest ≡ none) × UniqueIds rest

module _ {P : Platform} where
  find-assign :
      (i j : ℕ) (entry : RegisteredConfig P) (configs : List (RegisteredConfig P))
      → entry.id ≡ i
      → find_config j (assign_found i entry configs)
        ≡ (if i == j && is_some (find_config i configs) then some entry else find_config j configs)
  unfolding find_config assign_found
  find-assign i j entry [] e = ground arith
  find-assign i j entry (config ∷ rest) e = ground (arith, find-assign i j entry rest e)

  find-append :
      (j : ℕ) (configs : List (RegisteredConfig P)) (entry : RegisteredConfig P)
      → find_config j (configs ++ (entry ∷ []))
        ≡ or_else (find_config j configs) (if entry.id == j then some entry else none)
  unfolding find_config
  find-append j [] entry = refl
  find-append j (config ∷ rest) entry = ground (arith, find-append j rest entry)

  -- After `upsert_config` with an entry of that id, a lookup of the id finds the entry, and every other
  -- lookup finds what it found before.
  pub find-upsert :
      (i j : ℕ) (entry : RegisteredConfig P) (configs : List (RegisteredConfig P))
      → entry.id ≡ i
      → find_config j (upsert_config i entry configs)
        ≡ (if i == j then some entry else find_config j configs)
  unfolding upsert_config
  find-upsert i j entry configs e = elim (Option-cases (find_config i configs)) [
    | inl absent ↦ rw (absent, find-append) (ground arith)
    | inr (c, found) ↦ ground (arith, find-assign i j entry configs e)
  ]

  UniqueIds-assign :
      (i : ℕ) (entry : RegisteredConfig P) (configs : List (RegisteredConfig P))
      → entry.id ≡ i
      → UniqueIds configs
      → UniqueIds (assign_found i entry configs)
  unfolding assign_found
  UniqueIds-assign i entry [] e u = u
  UniqueIds-assign i entry (config ∷ rest) e (fresh, u) = elim (Bool-cases (config.id == i)) [
    | inl same ↦ ground arith
    | inr other ↦
        ground (arith, find-assign i config.id entry rest e, UniqueIds-assign i entry rest e u)
  ]

  UniqueIds-append :
      (configs : List (RegisteredConfig P)) (entry : RegisteredConfig P)
      → UniqueIds configs
      → find_config entry.id configs ≡ none
      → UniqueIds (configs ++ (entry ∷ []))
  unfolding find_config
  UniqueIds-append [] entry u fresh = (refl, tt)
  UniqueIds-append (config ∷ rest) entry (free, u) fresh =
      ground (arith, find-append config.id rest entry, UniqueIds-append rest entry u)

  pub UniqueIds-upsert :
      (i : ℕ) (entry : RegisteredConfig P) (configs : List (RegisteredConfig P))
      → entry.id ≡ i
      → UniqueIds configs
      → UniqueIds (upsert_config i entry configs)
  unfolding upsert_config
  UniqueIds-upsert i entry configs e u = elim (Option-cases (find_config i configs)) [
    | inl absent ↦ ground (arith, UniqueIds-append configs entry u)
    | inr (c, found) ↦ rw found (UniqueIds-assign i entry configs e u)
  ]

  -- Where no id is registered twice, the loop of `release_config` leaves nothing to find under the id
  -- and every other lookup as it was.
  pub find-erase :
      (i j : ℕ) (configs : List (RegisteredConfig P))
      → UniqueIds configs
      → find_config j (erase_config i configs) ≡ (if i == j then none else find_config j configs)
  unfolding find_config erase_config
  find-erase i j [] u = ground arith
  find-erase i j (config ∷ rest) (fresh, u) = ground (arith, find-erase i j rest u)

  pub UniqueIds-erase :
      (i : ℕ) (configs : List (RegisteredConfig P))
      → UniqueIds configs
      → UniqueIds (erase_config i configs)
  unfolding erase_config
  UniqueIds-erase i [] u = u
  UniqueIds-erase i (config ∷ rest) (fresh, u) =
      ground (arith, find-erase i config.id rest u, UniqueIds-erase i rest u)
