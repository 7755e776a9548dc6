-- ===== src/Plugin/State.antt =====
-- The state of src/dprint_plugin.cpp: its function-local statics, and the two helpers that move texts
-- through the bytes that are shared with dprint.
use dprint_clang_format.Base.{length, Bytes, text, ℕ, ◌%◌, ◌^◌, Bool, false, List, []}
use dprint_clang_format.Plugin.Platform.{Platform}

pub record RegisteredConfig (P : Platform) : Type 0 where
  pub id : ℕ
  pub plugin : P.Object
  pub global : P.Object
  pub style : P.Style
  pub resolved_json : Bytes
  pub diagnostics_json : Bytes
  pub valid : Bool

pub record State (P : Platform) : Type 0 where
  pub shared_bytes : Bytes
  pub registered_configs : List (RegisteredConfig P)
  pub file_path : Bytes
  pub override_config_json : Bytes
  pub formatted_text : Bytes
  pub error_text : Bytes

module _ (P : Platform) where
  -- A `RegisteredConfig` with the initial values of its members.
  unfoldable pub default_config : RegisteredConfig P
  default_config = record {
    id = 0;
    plugin = P.empty;
    global = P.empty;
    style = P.get_llvm_style;
    resolved_json = text "{}";
    diagnostics_json = text "[]";
    valid = false;
  }

  unfoldable pub initial_state : State P
  initial_state = record {
    shared_bytes = [];
    registered_configs = [];
    file_path = [];
    override_config_json = [];
    formatted_text = [];
    error_text = [];
  }

  unfoldable pub take_shared_string : State P → Bytes × State P
  take_shared_string s = (s.shared_bytes, record s { shared_bytes = [] })

  -- `size_t` has 32 bits on the target, and the cast keeps as many.
  unfoldable pub set_shared_string : Bytes → State P → ℕ × State P
  set_shared_string value s = (length value % 2 ^ 32, record s { shared_bytes = value })
