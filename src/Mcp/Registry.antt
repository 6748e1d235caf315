-- ===== src/Mcp/Registry.antt =====
-- shirita-core/src/mcp/registry.rs: the registry of a run, built from the built-in tools and those
-- that the policy allows of the enabled servers.
pub mod Allowed
pub mod Sound
use shirita.Prelude.{
  ℕ, suc, ◌+◌, Option, none, some, Bool, true, false, not, List, [], ◌∷◌, any, keep, leb, ◌⊎◌, inl,
  inr, if◌then◌else◌,
}
use shirita.Text.{Text, codes}
use shirita.Json.{Value, Serde, get}
use shirita.Assoc.{Assoc, lookup}
use shirita.Authorization.{WaitEnd}
use shirita.Tools.{
  ToolSpec, ToolHandler, ToolCall, ToolRegistry, RegisterError, Moment, mcp, register,
}
use shirita.Tools.Random.{Dice}
use shirita.Tools.Math.{Floats}
use shirita.Tools.Registry.{Building, builtin_tool_registry}
use shirita.Mcp.{McpServerConfig}
use shirita.Mcp.Policy.{
  McpAccess, McpPolicy, ReadPolicy, read_some, from_settings_map, effective, mcp_tool_name,
}
use shirita.Mcp.Session.{McpSession, McpToolDef, McpError, list_tools}
use shirita.Mcp.Handler.{McpTool, mcp_tool, needs_decision}

abbrev pub max_effective_tools : ℕ
max_effective_tools = 128

abbrev pub max_enabled_servers_per_run : ℕ
max_enabled_servers_per_run = 8

-- What the building of a registry meets outside: the connection to a server, none where it fails,
-- the session with a server as a later call finds it, and the ends of the waits for a decision.
pub record Servers : Type 0 where
  pub connect : McpServerConfig → Option McpSession
  pub session_at : Text → Moment → McpSession
  pub waits : Text → Text → Moment → ToolCall → WaitEnd

-- `effective_mcp_policy`; settings that cannot be read are none.
unfoldable pub effective_mcp_policy : ReadPolicy → Assoc Value → Value → McpPolicy
effective_mcp_policy read settings override_config =
    effective (some (from_settings_map read settings))
      (read_some read (get override_config (codes "mcp_policy")))

abbrev pub mcp_spec : Text → McpToolDef → McpAccess → ToolSpec
mcp_spec server_id tool access = record {
  name = mcp_tool_name server_id tool.name;
  description = tool.description;
  input_schema = tool.input_schema;
  output_schema = none;
  source = mcp;
  required = false;
  selected = true;
  requires_authorization = needs_decision access;
}

abbrev pub handler_of : Servers → Text → McpToolDef → McpAccess → ToolHandler
handler_of servers server_id tool access = mcp_tool (record {
  server_id = server_id;
  tool_name = tool.name;
  access = access;
  session = servers.session_at server_id;
  waits = servers.waits server_id tool.name;
})

-- The registry so far and the number of effective tools.
pub record Growing : Type 0 where
  pub builder : ToolRegistry
  pub effective_tools : ℕ

unfoldable pub grown : Growing → RegisterError ⊎ ToolRegistry → Growing
grown g (inl e) = g
grown g (inr built) = record { builder = built; effective_tools = g.effective_tools + 1 }

unfoldable pub offer : Servers → Text → Growing → McpToolDef → Option McpAccess → Growing
offer servers server_id g tool none = g
offer servers server_id g tool (some access) =
    grown g (
      register g.builder (mcp_spec server_id tool access)
        (handler_of servers server_id tool access))

unfoldable pub register_tools : Servers → McpPolicy → Text → Growing → List McpToolDef → Growing
register_tools servers policy server_id g [] = g
register_tools servers policy server_id g (tool ∷ rest) =
    elim (leb max_effective_tools g.effective_tools) [
      | true ↦ g
      | false ↦
          register_tools servers policy server_id
            (offer servers server_id g tool
              (lookup (mcp_tool_name server_id tool.name) policy.tools))
            rest
    ]

unfoldable pub with_tools :
    Servers → McpPolicy → Text → Growing → McpError ⊎ List McpToolDef → Growing
with_tools servers policy server_id g (inl e) = g
with_tools servers policy server_id g (inr tools) = register_tools servers policy server_id g tools

unfoldable pub with_session :
    Serde → Servers → McpPolicy → Text → Growing → Option McpSession → Growing
with_session serde servers policy server_id g none = g
with_session serde servers policy server_id g (some session) =
    with_tools servers policy server_id g (list_tools serde session).0

-- The loop over the enabled servers; `enabled_servers` counts those that were tried.
unfoldable pub register_servers :
    Serde → Servers → McpPolicy → ℕ → Growing → List McpServerConfig → Growing
register_servers serde servers policy enabled_servers g [] = g
register_servers serde servers policy enabled_servers g (server ∷ rest) =
    elim (leb max_enabled_servers_per_run enabled_servers) [
      | true ↦ register_servers serde servers policy enabled_servers g rest
      | false ↦ elim (leb max_effective_tools g.effective_tools) [
        | true ↦ g
        | false ↦
            register_servers serde servers policy (suc enabled_servers)
              (with_session serde servers policy server.id g (servers.connect server)) rest
      ]
    ]

unfoldable pub effective_registry :
    Serde → Servers → McpPolicy → List McpServerConfig → Building → Building
effective_registry serde servers policy configs (inl e) = inl e
effective_registry serde servers policy configs (inr builtin) =
    if any (λ s. s.enabled) configs
    then inr
        (register_servers serde servers policy 0 (record { builder = builtin; effective_tools = 0 })
          (keep (λ s. s.enabled) configs)).builder
    else inr builtin

-- The result of `list_mcp_servers` is given; the `?` on it ends the building before it starts.
unfoldable pub build_effective_tool_registry :
    Serde
    → Servers
    → ReadPolicy
    → Floats
    → Dice
    → Assoc Value
    → Value
    → List McpServerConfig
    → Building
build_effective_tool_registry serde servers read fl dice settings override_config configs =
    effective_registry serde servers (effective_mcp_policy read settings override_config) configs
      (builtin_tool_registry fl dice)
