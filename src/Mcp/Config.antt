-- ===== src/Mcp/Config.antt =====
-- src/mcp/config.ts: the options of the server, the environment and the file of the host, put together.
pub mod Sound
mod Tests
use aria_bridge.Prelude.{
  Bool, false, not, ◌||◌, Text, text, includes, if◌then◌else◌, Option, none, some, List, [], ◌∷◌,
  ◌++◌,
}
use aria_bridge.Value.{Number, finite, Value, undefined, str, arr, obj, Fields, end, field, truthy}
use aria_bridge.Value.Props.{get, put}
use aria_bridge.Mcp.Validation as Validation
use aria_bridge.Mcp.Validation.{Result, ok, throws, ◌>>=◌, add_new}

-- `McpOptions`; the lists of `subscription` stand beside the others.
pub record McpOptions : Type 0 where
  pub workspace_path : Option Text
  pub host_url : Option Text
  pub secret : Option Text
  pub client_id : Option Text
  pub buffer_size : Option Number
  pub debug : Bool
  pub levels : Option (List Text)
  pub capabilities : Option (List Text)
  pub llm_filter : Option Text

-- What the process knows: three variables, its directory, and the client id made of its number.
pub record Environment : Type 0 where
  pub workspace : Option Text
  pub url : Option Text
  pub secret : Option Text
  pub directory : Text
  pub own_client_id : Text

-- The file that the host writes: it is missing, cannot be read or parsed, or holds a value.
pub data MetaFile : Type 0 where
  missing : MetaFile
  broken : (path message : Text) → MetaFile
  parsed : (path : Text) → Value → MetaFile

abbrev pub unreadable : Text → Text → Text
unreadable path message = text "Failed to parse " ++ (path ++ (text ": " ++ message))

-- `readMetaFile`. Of an array only the path that is written into it is read later; to write into a
-- value that is no object throws, with a message that is a parameter.
unfoldable pub read_meta_file : Text → Text → MetaFile → Result (Option Fields)
read_meta_file refusal workspace missing = ok none
read_meta_file refusal workspace (broken path message) = throws (unreadable path message)
read_meta_file refusal workspace (parsed path (obj meta)) =
    ok (some (put (text "workspacePath") (str workspace) meta))
read_meta_file refusal workspace (parsed path (arr xs)) =
    ok (some (field (text "workspacePath") (str workspace) end))
read_meta_file refusal workspace (parsed path v) = throws (unreadable path refusal)

-- `metaFromDisk?.name`.
abbrev pub disk : Text → Option Fields → Value
disk name none = undefined
disk name (some meta) = get name meta

-- `v || w`.
abbrev pub or : Value → Value → Value
or v w = if truthy v then v else w

abbrev pub opt : Option Text → Value
opt none = undefined
opt (some t) = str t

-- `v || w` of two texts.
abbrev pub or_text : Option Text → Text → Text
or_text none w = w
or_text (some []) w = w
or_text (some (c ∷ s)) w = c ∷ s

-- `v ?? w`, and `v || w` of lists, which are never false.
abbrev pub or_default {ℓ} : {A : Type ℓ} → Option A → A → A
or_default none w = w
or_default (some v) w = v

-- The loop of `normalizeLevels` and of `normalizeCapabilities`, over the set so far.
unfoldable pub keep_allowed : List Text → List Text → List Text → List Text
keep_allowed allowed set [] = set
keep_allowed allowed set (x ∷ xs) =
    keep_allowed allowed (if includes allowed x then add_new x set else set) xs

-- `set.size ? set : fallback`.
abbrev pub or_fallback : List Text → List Text → List Text
or_fallback fallback [] = fallback
or_fallback fallback (x ∷ xs) = x ∷ xs

unfoldable pub normalize_levels : List Text → List Text
normalize_levels levels =
    or_fallback (text "errors" ∷ []) (keep_allowed Validation.levels [] levels)

unfoldable pub normalize_capabilities : List Text → List Text
normalize_capabilities caps =
    or_fallback (text "error" ∷ text "console" ∷ []) (keep_allowed Validation.caps [] caps)

abbrev pub default_levels : List Text
default_levels = text "errors" ∷ text "warn" ∷ text "info" ∷ []

abbrev pub default_capabilities : List Text
default_capabilities =
    text "error"
    ∷ text "console"
    ∷ text "pageview"
    ∷ text "navigation"
    ∷ text "network"
    ∷ text "screenshot"
    ∷ text "control"
    ∷ []

pub record BridgeMeta : Type 0 where
  pub url : Value
  pub secret : Value
  pub port : Value
  pub workspace_path : Value
  pub pid : Value
  pub heartbeat_at : Value
  pub started_at : Value

pub record ResolvedMcpConfig : Type 0 where
  pub meta : BridgeMeta
  pub client_id : Text
  pub buffer_size : Number
  pub debug : Bool
  pub levels : List Text
  pub capabilities : List Text
  pub llm_filter : Text

unfoldable pub resolve_meta : McpOptions → Environment → Text → Option Fields → BridgeMeta
resolve_meta o env workspace from_disk = record {
  url = or (opt o.host_url) (or (opt env.url) (or (disk (text "url") from_disk) (str [])));
  secret = or (opt o.secret) (or (opt env.secret) (or (disk (text "secret") from_disk) (str [])));
  port = disk (text "port") from_disk;
  workspace_path = or (disk (text "workspacePath") from_disk) (str workspace);
  pid = disk (text "pid") from_disk;
  heartbeat_at = disk (text "heartbeatAt") from_disk;
  started_at = disk (text "startedAt") from_disk;
}

abbrev pub unresolved : Text
unresolved =
    text
      "Unable to resolve aria-bridge host metadata (url + secret). Run `aria-bridge-host` first or provide --url/--secret."

-- What is returned once there are a url and a secret.
unfoldable pub resolved : McpOptions → Environment → BridgeMeta → ResolvedMcpConfig
resolved o env meta = record {
  meta = meta;
  client_id = or_text o.client_id env.own_client_id;
  buffer_size = or_default o.buffer_size (finite false 500 0);
  debug = o.debug;
  levels = normalize_levels (or_default o.levels default_levels);
  capabilities = normalize_capabilities (or_default o.capabilities default_capabilities);
  llm_filter = or_text o.llm_filter (text "off");
}

unfoldable pub resolve_with : McpOptions → Environment → BridgeMeta → Result ResolvedMcpConfig
resolve_with o env meta =
    if not (truthy meta.url) || not (truthy meta.secret)
    then throws unresolved
    else ok (resolved o env meta)

unfoldable pub workspace_of : McpOptions → Environment → Text
workspace_of o env = or_text o.workspace_path (or_text env.workspace env.directory)

unfoldable pub resolve_mcp_config :
    Text → McpOptions → Environment → (Text → MetaFile) → Result ResolvedMcpConfig
resolve_mcp_config refusal o env file =
    let workspace = workspace_of o env in
    read_meta_file refusal workspace (file workspace)
    >>= (λ from_disk. resolve_with o env (resolve_meta o env workspace from_disk))
