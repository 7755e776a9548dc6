-- ===== src/Plugin/Resolve/Validity.antt =====
-- When src/dprint_plugin.cpp calls a configuration valid, and what it reports.
use dprint_clang_format.Base.{
  text, sym, ◌∙◌, Bool-cases, inl, ◌∷◌, ◌++◌, Bytes, ◌≡◌, refl, ◌↔◌, ◌⊎◌, inr, true, false, Option,
  none, some, List, [], arith,
}
use mathlib.Core.Path.{subst}
use dprint_clang_format.Plugin.Platform.{Platform, IsJson}
use dprint_clang_format.Plugin.Escape.{ConfigDiagnostic}
use dprint_clang_format.Plugin.Options.{reject_filesystem_dependent_style}
use dprint_clang_format.Plugin.Options.Reject.{NeedsFiles, file_diagnostic, reject-NeedsFiles}
use dprint_clang_format.Plugin.Resolve.{
  ResolveResult, gather, configured, read_style, resolve_options, resolve_format_style,
}
use dprint_clang_format.Plugin.Resolve.Precedence.{resolved-options}

module _ (P : Platform) where
  -- The configuration is empty or there is nothing to report.
  abbrev pub IsClean : ResolveResult P → Type 0
  IsClean r = (P.is_empty_object r.resolved ≡ true) ⊎ (r.diagnostics ≡ [])

  -- Clang read the resolved options without an error, and the style is what it made of them.
  abbrev pub IsRead : ResolveResult P → Type 0
  IsRead r =
      (P.parse_configuration (P.print r.resolved) P.get_llvm_style ≡ (r.style, none))
      × (r.diagnostics ≡ [])

  abbrev IsSettled : ResolveResult P → Type 0
  IsSettled r =
      ((r.valid ≡ true) ↔ IsClean r)
      × (r.valid ≡ true → P.is_empty_object r.resolved ≡ false → IsRead r)

  configured-IsSettled :
      (options : P.Object)
      → P.is_empty_object options ≡ false
      → IsSettled (configured P options (P.parse_configuration (P.print options) P.get_llvm_style))
  unfolding configured
  configured-IsSettled options some_options =
      by_result (P.parse_configuration (P.print options) P.get_llvm_style) refl
    where
      by_result :
          (c : P.Style × Option Bytes)
          → P.parse_configuration (P.print options) P.get_llvm_style ≡ c
          → IsSettled (configured P options c)
      by_result (style, none) e = ((λ _. inr refl, λ _. refl), (λ _ _. (e, refl)))
      by_result (style, some message) e = ((λ h. cc, λ h. ground arith), (λ h _. cc))

  resolve_options-empty :
      (options : P.Object) (early : List ConfigDiagnostic)
      → P.is_empty_object options ≡ true
      → resolve_options P options early
        ≡ record { style = P.get_llvm_style; resolved = options; diagnostics = early; valid = true }
  unfolding resolve_options
  resolve_options-empty options early e = rw e

  resolve_options-some :
      (options : P.Object) (early : List ConfigDiagnostic)
      → P.is_empty_object options ≡ false
      → resolve_options P options early ≡ read_style P options early
  unfolding resolve_options
  resolve_options-some options early e = rw e

  read_style-IsSettled :
      (options : P.Object) (early : List ConfigDiagnostic)
      → P.is_empty_object options ≡ false
      → IsSettled (read_style P options early)
  unfolding read_style
  read_style-IsSettled options [] some_options = configured-IsSettled options some_options
  read_style-IsSettled options (d ∷ ds) some_options = ((λ h. cc, λ h. ground arith), (λ h _. cc))

  resolve_options-IsSettled :
      (options : P.Object) (early : List ConfigDiagnostic)
      → IsSettled (resolve_options P options early)
  resolve_options-IsSettled options early = elim (Bool-cases (P.is_empty_object options)) [
    | inl e ↦
        rw (resolve_options-empty options early e)
          ((λ _. inl e, λ _. refl), (λ _ n. absurd (ground arith)))
    | inr e ↦ rw (resolve_options-some options early e) (read_style-IsSettled options early e)
  ]

  IsSettled-reading :
      (r : ResolveResult P)
      → IsSettled r
      → (r.valid ≡ true) ↔ ((P.is_empty_object r.resolved ≡ true) ⊎ IsRead r)
  IsSettled-reading r (clean, read) = (
    λ v. elim (Bool-cases (P.is_empty_object r.resolved)) [
      | inl e ↦ inl e
      | inr e ↦ inr (read v e)
    ],
    λ c. elim c [ inl e ↦ clean.1 (inl e) | inr reading ↦ clean.1 (inr reading.1) ],
  )

  -- A configuration is valid exactly if it resolves to no option at all or has nothing to report; and
  -- exactly if it resolves to no option at all, or Clang read the resolved options without an error, the
  -- style is what it made of them, and there is nothing to report.
  pub resolve-valid :
      (plugin global : P.Object) (over : Option P.Object)
      → let r = resolve_format_style P plugin global over in
        ((r.valid ≡ true) ↔ IsClean r)
        × ((r.valid ≡ true) ↔ ((P.is_empty_object r.resolved ≡ true) ⊎ IsRead r))
  unfolding resolve_format_style
  resolve-valid plugin global over =
      let g = gather P plugin global over in
      let s = resolve_options-IsSettled g.0 (reject_filesystem_dependent_style P g.0 g.1) in
      (
        s.0,
        IsSettled-reading (resolve_options P g.0 (reject_filesystem_dependent_style P g.0 g.1)) s,
      )

  options-no_options :
      (o : P.Object) (early : List ConfigDiagnostic)
      → P.is_empty_object o ≡ true
      → let r = resolve_options P o early in (r.valid ≡ true) × (r.style ≡ P.get_llvm_style)
  options-no_options o early e = rw (resolve_options-empty o early e) (refl, refl)

  -- A configuration that resolves to no option has LLVM's style.
  pub resolve-no_options :
      (plugin global : P.Object) (over : Option P.Object)
      → let r = resolve_format_style P plugin global over in
        P.is_empty_object r.resolved ≡ true → (r.valid ≡ true) × (r.style ≡ P.get_llvm_style)
  unfolding resolve_format_style
  resolve-no_options plugin global over e =
      options-no_options (gather P plugin global over).0
        (reject_filesystem_dependent_style P (gather P plugin global over).0
          (gather P plugin global over).1)
        (rw (resolved-options P plugin global over) at e)

  read_style-some :
      (options : P.Object) (ds : List ConfigDiagnostic) (d : ConfigDiagnostic)
      → ((read_style P options (ds ++ (d ∷ []))).valid ≡ false)
        × ((read_style P options (ds ++ (d ∷ []))).diagnostics ≡ ds ++ (d ∷ []))
  unfolding read_style
  read_style-some options [] d = (refl, refl)
  read_style-some options (e ∷ ds) d = (refl, refl)

  options-NeedsFiles :
      IsJson P
      → (o : P.Object) (ds : List ConfigDiagnostic) → NeedsFiles P o
      → let r = resolve_options P o (reject_filesystem_dependent_style P o ds) in
        (r.valid ≡ false) × (r.diagnostics ≡ ds ++ (file_diagnostic ∷ []))
  options-NeedsFiles J o ds n = elim (Bool-cases (P.is_empty_object o)) [
    | inl e ↦ absurd (absent (sym n.found ∙ J.is_empty-find o (text "BasedOnStyle") e))
    | inr e ↦
        rw (reject-NeedsFiles P o ds n, resolve_options-some o (ds ++ (file_diagnostic ∷ [])) e)
          (read_style-some o ds file_diagnostic)
  ]
    where
      absent : some n.value ≡ none → ⊥
      absent e = cc

  -- A configuration whose resolved `BasedOnStyle` is a style that Clang looks for in files is not valid,
  -- and the diagnostics are those of the merging, followed by one that says so.
  pub resolve-NeedsFiles :
      IsJson P
      → (plugin global : P.Object) (over : Option P.Object)
      → let r = resolve_format_style P plugin global over in
        NeedsFiles P r.resolved
        → (r.valid ≡ false)
          × (r.diagnostics ≡ (gather P plugin global over).1 ++ (file_diagnostic ∷ []))
  unfolding resolve_format_style
  resolve-NeedsFiles J plugin global over n =
      options-NeedsFiles J (gather P plugin global over).0 (gather P plugin global over).1
        (subst (NeedsFiles P) (resolved-options P plugin global over) n)
