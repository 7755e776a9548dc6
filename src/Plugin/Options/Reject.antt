-- ===== src/Plugin/Options/Reject.antt =====
-- What `reject_filesystem_dependent_style` of src/dprint_plugin.cpp reports.
use dprint_clang_format.Base.{
  Bytes, text, ◌≡◌, ap, ◌⊎◌, inl, inr, true, some, List, [], ◌∷◌, ◌++◌, arith,
}
use dprint_clang_format.Plugin.Platform.{Platform}
use dprint_clang_format.Plugin.Escape.{ConfigDiagnostic}
use dprint_clang_format.Plugin.Options.{
  diagnostic, base_style, rejection, reject_filesystem_dependent_style,
}

abbrev pub file_diagnostic : ConfigDiagnostic
file_diagnostic =
    diagnostic (text "BasedOnStyle")
      (text "Filesystem-dependent clang-format style discovery is not supported")

module _ (P : Platform) where
  -- The style to start from is one that Clang would look for in files.
  pub record NeedsFiles (options : P.Object) : Type 0 where
    pub value : P.Value
    pub name : Bytes
    pub found : P.find options (text "BasedOnStyle") ≡ some value
    pub is_string : P.get_as_string value ≡ some name
    pub is_file :
        (P.equals_insensitive name (text "file") ≡ true)
        ⊎ (P.equals_insensitive name (text "InheritParentConfig") ≡ true)

  pub reject-NeedsFiles :
      (options : P.Object) (ds : List ConfigDiagnostic)
      → NeedsFiles options
      → reject_filesystem_dependent_style P options ds ≡ ds ++ (file_diagnostic ∷ [])
  unfolding reject_filesystem_dependent_style
  reject-NeedsFiles options ds n =
      rw (n.found, base_style, n.is_string, rejection)
        (ap (λ (t : List ConfigDiagnostic). ds ++ t) (by_name n.name n.is_file))
    where
      by_name :
          (name : Bytes)
          → (P.equals_insensitive name (text "file") ≡ true)
            ⊎ (P.equals_insensitive name (text "InheritParentConfig") ≡ true)
          → rejection P (some name) ≡ file_diagnostic ∷ []
      by_name name (inl e) = ground arith
      by_name name (inr e) = ground arith
