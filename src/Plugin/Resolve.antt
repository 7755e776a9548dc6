-- ===== src/Plugin/Resolve.antt =====
-- `resolve_format_style` and `resolve_registered_config` of src/dprint_plugin.cpp.
pub mod Precedence
pub mod Validity
pub mod Numerals
use dprint_clang_format.Base.{
  if◌then◌else◌, Bytes, text, ℕ, Bool, true, false, Option, none, some, List, [], ◌∷◌,
}
use dprint_clang_format.Plugin.Platform.{Platform}
use dprint_clang_format.Plugin.Escape.{ConfigDiagnostic, diagnostics_to_json}
use dprint_clang_format.Plugin.State.{RegisteredConfig}
use dprint_clang_format.Plugin.Options.{
  Gathered, diagnostic, merge_global_options, merge_object_options,
  reject_filesystem_dependent_style,
}

pub record ResolveResult (P : Platform) : Type 0 where
  pub style : P.Style
  pub resolved : P.Object
  pub diagnostics : List ConfigDiagnostic
  pub valid : Bool

module _ (P : Platform) where
  abbrev object_to_json : P.Object → Bytes
  object_to_json object = P.print object

  -- The source passes the diagnostics on, and does not read them.
  abbrev options_to_config_text : P.Object → Bytes
  options_to_config_text options = P.print options

  merge_override : Option P.Object → P.Object → P.Object
  merge_override none options = options
  merge_override (some override_options) options = merge_object_options P override_options options

  -- The options and the diagnostics before the style is read.
  unfoldable pub gather : P.Object → P.Object → Option P.Object → Gathered P
  unfolding merge_override
  gather plugin global override_options =
      merge_global_options P global
        (merge_override override_options (merge_object_options P plugin P.empty), [])

  -- From `parseConfiguration` on.
  configured : P.Object → P.Style × Option Bytes → ResolveResult P
  configured options (style, none) = record {
    style = style;
    resolved = options;
    diagnostics = [];
    valid = true;
  }
  configured options (style, some message) = record {
    style = style;
    resolved = options;
    diagnostics = diagnostic (text "clangFormat") message ∷ [];
    valid = false;
  }

  -- From `options_to_config_text` on.
  unfoldable pub read_style : P.Object → List ConfigDiagnostic → ResolveResult P
  unfolding configured
  read_style options [] =
      configured options (P.parse_configuration (options_to_config_text options) P.get_llvm_style)
  read_style options (d ∷ ds) = record {
    style = P.get_llvm_style;
    resolved = options;
    diagnostics = d ∷ ds;
    valid = false;
  }

  -- From `result.resolved = options` on.
  unfoldable pub resolve_options : P.Object → List ConfigDiagnostic → ResolveResult P
  resolve_options options diagnostics =
      if P.is_empty_object options
      then record {
        style = P.get_llvm_style;
        resolved = options;
        diagnostics = diagnostics;
        valid = true;
      }
      else read_style options diagnostics

  unfoldable pub resolve_format_style : P.Object → P.Object → Option P.Object → ResolveResult P
  resolve_format_style plugin global override_options =
      let g = gather plugin global override_options in
      resolve_options g.0 (reject_filesystem_dependent_style P g.0 g.1)

  unfoldable pub resolve_registered_config : ℕ → P.Object → P.Object → RegisteredConfig P
  resolve_registered_config config_id plugin global =
      let resolved = resolve_format_style plugin global none in
      record {
        id = config_id;
        plugin = plugin;
        global = global;
        style = resolved.style;
        resolved_json = object_to_json resolved.resolved;
        diagnostics_json = diagnostics_to_json resolved.diagnostics;
        valid = resolved.valid;
      }
