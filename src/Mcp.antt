-- ===== src/Mcp.antt =====
-- shirita-core/src/mcp/mod.rs: the configuration of a server of tools, its secrets and its checks.
-- What is said of a URL and of a header is in Mcp/Http.
pub mod Http
pub mod Secrets
pub mod Accepted
pub mod Policy
pub mod Session
pub mod Discovery
pub mod Replies
pub mod Loopback
pub mod Handler
pub mod Registry
use shirita.Prelude.{
  ℕ, ◌+◌, ◌*◌, Option, none, some, Bool, true, false, not, ◌&&◌, ◌||◌, List, [], ◌∷◌, ◌++◌, map,
  any, all, length, is_empty, ltb, leb, ◌==◌, if◌then◌else◌, find_by,
}
use shirita.Text.{Text, text_eq, byte_len, trim}
use shirita.HtmlPatch.{is_ascii_alphanumeric}
use shirita.Mcp.Http.{UrlError, HeaderError, validate_url, validate_header_name}

abbrev pub max_config_items : ℕ
max_config_items = 64

abbrev pub max_config_item_bytes : ℕ
max_config_item_bytes = 8192

abbrev pub Pairs : Type 0
Pairs = List (Text × Text)

pub data McpTransportConfig : Type 0 where
  -- The command, its arguments and its environment.
  stdio : Text → List Text → Pairs → McpTransportConfig
  -- The URL and its headers.
  streamable_http : Text → Pairs → McpTransportConfig

pub record McpServerConfig : Type 0 where
  pub id : Text
  pub name : Text
  pub enabled : Bool
  pub transport : McpTransportConfig
  pub request_timeout_ms : ℕ
  pub has_secret : Bool

unfoldable pub any_value : Pairs → Bool
any_value ps = any (λ p. not (is_empty p.1)) ps

unfoldable pub blank : Pairs → Pairs
blank ps = map (λ p. (p.0, [])) ps

unfoldable pub has_secrets : McpTransportConfig → Bool
has_secrets (stdio command args env) = any_value env
has_secrets (streamable_http url headers) = any_value headers

-- `McpTransportConfig::redacted`
unfoldable pub redacted_transport : McpTransportConfig → McpTransportConfig × Bool
redacted_transport (stdio command args env) = (stdio command args (blank env), any_value env)
redacted_transport (streamable_http url headers) =
    (streamable_http url (blank headers), any_value headers)

-- `McpServerConfig::redacted`
unfoldable pub redacted : McpServerConfig → McpServerConfig
redacted config =
    let r = redacted_transport config.transport in
    record config { transport = r.0; has_secret = r.1 }

unfoldable pub or_empty : Option (Text × Text) → Text
or_empty none = []
or_empty (some p) = p.1

unfoldable pub stored_value : Pairs → Text → Text
stored_value stored key = or_empty (find_by (λ p. text_eq p.0 key) stored)

unfoldable pub merge_pairs : Pairs → Pairs → Pairs
merge_pairs stored incoming =
    map (λ p. if is_empty p.1 then (p.0, stored_value stored p.0) else p) incoming

unfoldable pub env_of : McpTransportConfig → Pairs
env_of (stdio command args env) = env
env_of (streamable_http url headers) = []

unfoldable pub headers_of : McpTransportConfig → Pairs
headers_of (stdio command args env) = []
headers_of (streamable_http url headers) = headers

unfoldable pub merge_transport : McpTransportConfig → McpTransportConfig → McpTransportConfig
merge_transport stored (stdio command args env) =
    stdio command args (merge_pairs (env_of stored) env)
merge_transport stored (streamable_http url headers) =
    streamable_http url (merge_pairs (headers_of stored) headers)

unfoldable pub merge_secrets : McpServerConfig → McpServerConfig → McpServerConfig
merge_secrets stored incoming =
    let transport = merge_transport stored.transport incoming.transport in
    record {
      id = incoming.id;
      name = incoming.name;
      enabled = incoming.enabled;
      transport = transport;
      request_timeout_ms = incoming.request_timeout_ms;
      has_secret = has_secrets transport;
    }

-- The reasons for which a configuration is refused.
pub data ConfigError : Type 0 where
  bad_id bad_name bad_timeout : ConfigError
  command_required command_too_large too_many_items item_too_large : ConfigError
  bad_url : UrlError → ConfigError
  too_many_headers : ConfigError
  bad_header : HeaderError → ConfigError
  header_too_large : ConfigError

unfoldable pub id_ok : Text → Bool
id_ok id =
    not (is_empty id)
    && all (λ c. is_ascii_alphanumeric c || c == b'-' || c == b'_' || c == b'.') id

unfoldable pub too_large : Text → Bool
too_large item = ltb max_config_item_bytes (byte_len item)

unfoldable pub validate_stdio : Text → List Text → Pairs → Option ConfigError
validate_stdio command args env =
    if is_empty (trim command)
    then some command_required
    else if too_large command
    then some command_too_large
    else if ltb max_config_items (length args + length env)
    then some too_many_items
    else if any too_large (args ++ (map (λ p. p.0) env ++ map (λ p. p.1) env))
    then some item_too_large
    else none

unfoldable pub header_error : Text → Text → Option HeaderError → Option ConfigError
header_error name value (some e) = some (bad_header e)
header_error name value none = if too_large value then some header_too_large else none

unfoldable pub validate_headers : Pairs → Option ConfigError
validate_headers [] = none
validate_headers ((name, value) ∷ rest) =
    elim (header_error name value (validate_header_name name)) [
      | some e ↦ some e
      | none ↦ validate_headers rest
    ]

unfoldable pub validate_http : Text → Pairs → Option ConfigError
validate_http url headers = elim (validate_url url) [
  | some e ↦ some (bad_url e)
  | none ↦
      if ltb max_config_items (length headers)
      then some too_many_headers
      else validate_headers headers
]

unfoldable pub validate_transport : McpTransportConfig → Option ConfigError
validate_transport (stdio command args env) = validate_stdio command args env
validate_transport (streamable_http url headers) = validate_http url headers

-- `McpServerConfig::validate`; none is `Ok(())`.
unfoldable pub validate : McpServerConfig → Option ConfigError
validate config =
    if not (id_ok config.id)
    then some bad_id
    else if is_empty (trim config.name)
    then some bad_name
    else if config.request_timeout_ms == 0 || ltb 300000 config.request_timeout_ms
    then some bad_timeout
    else validate_transport config.transport
