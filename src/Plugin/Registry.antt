-- ===== src/Plugin/Registry.antt =====
-- The table of configurations in src/dprint_plugin.cpp: `find_config`, `upsert_config` and the loop of
-- `release_config`.
pub mod Table
pub mod Entries
use dprint_clang_format.Base.{
  ◌==◌, if◌then◌else◌, is_some, ℕ, Option, none, some, List, [], ◌∷◌, ◌++◌,
}
use dprint_clang_format.Plugin.Platform.{Platform}
use dprint_clang_format.Plugin.State.{RegisteredConfig}

module _ {P : Platform} where
  -- A pointer to an entry is the entry here; the write through it is `assign_found`.
  unfoldable pub find_config : ℕ → List (RegisteredConfig P) → Option (RegisteredConfig P)
  find_config config_id [] = none
  find_config config_id (config ∷ rest) =
      if config.id == config_id then some config else find_config config_id rest

  unfoldable pub assign_found :
      ℕ → RegisteredConfig P → List (RegisteredConfig P) → List (RegisteredConfig P)
  assign_found config_id entry [] = []
  assign_found config_id entry (config ∷ rest) =
      if config.id == config_id then entry ∷ rest else config ∷ assign_found config_id entry rest

  unfoldable pub upsert_config :
      ℕ → RegisteredConfig P → List (RegisteredConfig P) → List (RegisteredConfig P)
  unfolding find_config assign_found
  upsert_config config_id entry configs =
      if is_some (find_config config_id configs)
      then assign_found config_id entry configs
      else configs ++ (entry ∷ [])

  unfoldable pub erase_config : ℕ → List (RegisteredConfig P) → List (RegisteredConfig P)
  erase_config config_id [] = []
  erase_config config_id (config ∷ rest) =
      if config.id == config_id then rest else config ∷ erase_config config_id rest
