-- ===== src/Mcp/Config/Tests.antt =====
-- src/mcp/config.ts, run.
use aria_bridge.Prelude.{Text, text, text_eq, includes, true, none, some, [], ◌∷◌, ◌≡◌, refl}
use aria_bridge.Value.{str, obj, end, field, truthy}
use aria_bridge.Value.Props.{get, put}
use aria_bridge.Mcp.Validation.{throws}
use aria_bridge.Mcp.Config.{
  McpOptions, Environment, MetaFile, missing, parsed, read_meta_file, keep_allowed,
  normalize_levels, normalize_capabilities, resolve_meta, resolved, resolve_with, workspace_of,
  resolve_mcp_config, unresolved,
}
use aria_bridge.Mcp.Config.Sound.{IsSound, resolve_mcp_config-IsSound}

code : Unit {0}
unfolding text_eq includes get put truthy read_meta_file keep_allowed normalize_levels
    normalize_capabilities resolve_meta resolved resolve_with workspace_of resolve_mcp_config
code = tt

abbrev options : McpOptions
options = record {
  workspace_path = none;
  host_url = none;
  secret = some (text "s");
  client_id = none;
  buffer_size = none;
  debug = true;
  levels = some (text "trace" ∷ text "loud" ∷ text "trace" ∷ []);
  capabilities = some [];
  llm_filter = none;
}

abbrev environment : Environment
environment = record {
  workspace = none;
  url = none;
  secret = none;
  directory = text "/app";
  own_client_id = text "mcp-7";
}

abbrev file : Text → MetaFile
file workspace =
    parsed (text "/app/.aria/aria-bridge.json")
      (obj (field (text "url") (str (text "ws://localhost:9876")) end))

-- The levels that the host does not know are left out, and without a capability the defaults stand.
normalizes :
    (normalize_levels (text "trace" ∷ text "loud" ∷ text "trace" ∷ []) ≡ text "trace" ∷ [])
    × (normalize_capabilities [] ≡ text "error" ∷ text "console" ∷ [])
unfolding code
normalizes = (refl, refl)

-- Without a url there is no configuration.
no_url : resolve_mcp_config (text "") options environment (λ w. missing) ≡ throws unresolved
unfolding code
no_url = refl

resolve_mcp_config-IsSound_example : IsSound options (
    resolved options environment (
      resolve_meta options environment (text "/app") (
        some (
          field
            (text "url")
            (str (text "ws://localhost:9876"))
            (field (text "workspacePath") (str (text "/app")) end)))))
unfolding code
resolve_mcp_config-IsSound_example =
    resolve_mcp_config-IsSound (text "") options environment file
      (resolved options environment (
        resolve_meta options environment (text "/app") (
          some (
            field (text "url") (str (text "ws://localhost:9876"))
              (field (text "workspacePath") (str (text "/app")) end)))))
      refl
