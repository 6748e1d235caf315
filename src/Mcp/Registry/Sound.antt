-- ===== src/Mcp/Registry/Sound.antt =====
-- A run with the registry of shirita-core/src/mcp/registry.rs: the tools of servers never ask the loop
-- for anything, so that what holds of a run with built-in tools holds of it as well.
use shirita.Prelude.{
  ℕ, suc, ◌≡◌, refl, Option, none, some, Bool, List, [], ◌∷◌, any, leb, ◌⊎◌, inl, inr, Bool-cases,
  All,
}
use shirita.Text.{Text}
use shirita.Json.{Value, Serde}
use shirita.Assoc.{Assoc, lookup}
use shirita.Tools.{
  ToolSpec, ToolCall, ToolHandler, ToolRegistry, Moment, register, RegisterError, no_control,
}
use shirita.Tools.Random.{Dice}
use shirita.Tools.Math.{Floats}
use shirita.Tools.Registry.{Building}
use shirita.Model.{ChatRequest}
use shirita.Workspace.Edits.{Fits}
use shirita.Agent.{AgentSettings, GenerationRun}
use shirita.AgentLoop.{Env}
use shirita.AgentLoop.Rounds.{run_harness}
use shirita.AgentLoop.Outcome.{Keeps, Promises, SoundEnd, run_harness-SoundEnd}
use shirita.AgentLoop.Outcome.Tools.{register-Promises}
use shirita.AgentLoop.Outcome.Builtin.{builtin-Promises, builtin_is_built}
use shirita.Mcp.{McpServerConfig}
use shirita.Mcp.Policy.{McpAccess, McpPolicy, ReadPolicy, mcp_tool_name}
use shirita.Mcp.Session.{McpSession, McpToolDef, McpError, McpCallResult}
use shirita.Mcp.Handler.{McpTool, mcp_tool, needs_decision, is_approved, call_session, execution_of}
use shirita.Authorization.{decision_of}
use shirita.Mcp.Registry.{
  Servers, Growing, grown, offer, register_tools, with_tools, with_session, register_servers,
  mcp_spec, handler_of, effective_registry, build_effective_tool_registry, effective_mcp_policy,
  max_effective_tools, max_enabled_servers_per_run,
}
use shirita.Mcp.Registry.Allowed.{AllowedBuilding, effective_registry-Allowed}

execution_of-control :
    (call : ToolCall) (r : McpError ⊎ McpCallResult) → (execution_of call r).control ≡ no_control
unfolding execution_of
execution_of-control call (inl e) = refl
execution_of-control call (inr r) = elim (Bool-cases r.is_error) [
  | inl e ↦ rw e refl
  | inr e ↦ rw e refl
]

call_session-control :
    (tool : McpTool) (moment : Moment) (call : ToolCall)
    → (call_session tool moment call).control ≡ no_control
unfolding call_session
call_session-control tool moment call = execution_of-control call _

mcp_tool-control :
    (tool : McpTool) (moment : Moment) (call : ToolCall)
    → (mcp_tool tool moment call).control ≡ no_control
unfolding mcp_tool
mcp_tool-control tool moment call = elim (Bool-cases (needs_decision tool.access)) [
  | inl e ↦ elim (Bool-cases (is_approved (decision_of (tool.waits moment call)))) [
    | inl f ↦ rw (e, f) (call_session-control tool moment call)
    | inr f ↦ rw (e, f) refl
  ]
  | inr e ↦ rw e (call_session-control tool moment call)
]

mcp_tool-Keeps : (tool : McpTool) (name : Text) → Keeps name (mcp_tool tool)
mcp_tool-Keeps tool name moment call q = rw (mcp_tool-control tool moment call) tt

abbrev Kept : Growing → Type 0
Kept g = Promises g.builder

grown-Kept :
    (g : Growing) (spec : ToolSpec) (handler : ToolHandler)
    → Kept g
    → Keeps spec.name handler
    → Kept (grown g (register g.builder spec handler))
unfolding grown
grown-Kept g spec handler p k = go (register g.builder spec handler) refl
  where
    go : (r : RegisterError ⊎ ToolRegistry) → register g.builder spec handler ≡ r → Kept (grown g r)
    go (inl e) q = p
    go (inr built) q = register-Promises g.builder spec handler built p k q

module _ (servers : Servers) (policy : McpPolicy) (server_id : Text) where
  offer-Kept :
      (g : Growing) (tool : McpToolDef) (o : Option McpAccess)
      → Kept g
      → Kept (offer servers server_id g tool o)
  unfolding offer
  offer-Kept g tool none p = p
  offer-Kept g tool (some access) p =
      grown-Kept g (mcp_spec server_id tool access) (handler_of servers server_id tool access) p
        (mcp_tool-Keeps _ _)

  register_tools-Kept :
      (g : Growing) (tools : List McpToolDef)
      → Kept g
      → Kept (register_tools servers policy server_id g tools)
  unfolding register_tools
  register_tools-Kept g [] p = p
  register_tools-Kept g (tool ∷ rest) p =
      elim (Bool-cases (leb max_effective_tools g.effective_tools)) [
        | inl e ↦ rw (e, register_tools) p
        | inr e ↦
            rw (e, register_tools)
              (register_tools-Kept
                (offer servers server_id g tool
                  (lookup (mcp_tool_name server_id tool.name) policy.tools))
                rest (offer-Kept g tool _ p))
      ]

  with_tools-Kept :
      (g : Growing) (r : McpError ⊎ List McpToolDef)
      → Kept g
      → Kept (with_tools servers policy server_id g r)
  unfolding with_tools
  with_tools-Kept g (inl e) p = p
  with_tools-Kept g (inr tools) p = register_tools-Kept g tools p

  with_session-Kept :
      (serde : Serde) (g : Growing) (o : Option McpSession)
      → Kept g
      → Kept (with_session serde servers policy server_id g o)
  unfolding with_session
  with_session-Kept serde g none p = p
  with_session-Kept serde g (some session) p = with_tools-Kept g _ p

-- A registry that is built and whose tools keep their promises.
abbrev Sound : Building → Type 0
Sound (inl e) = ⊥
Sound (inr registry) = Promises registry

module _ (serde : Serde) (servers : Servers) (policy : McpPolicy) where
  register_servers-Kept :
      (n : ℕ) (g : Growing) (configs : List McpServerConfig)
      → Kept g
      → Kept (register_servers serde servers policy n g configs)
  unfolding register_servers
  register_servers-Kept n g [] p = p
  register_servers-Kept n g (server ∷ rest) p =
      elim (Bool-cases (leb max_enabled_servers_per_run n)) [
        | inl e ↦ rw (e, register_servers) (register_servers-Kept n g rest p)
        | inr e ↦ elim (Bool-cases (leb max_effective_tools g.effective_tools)) [
          | inl d ↦ rw (e, d, register_servers) p
          | inr d ↦
              rw (e, d, register_servers)
                (register_servers-Kept (suc n)
                  (with_session serde servers policy server.id g (servers.connect server)) rest
                  (with_session-Kept servers policy server.id serde g (servers.connect server) p))
        ]
      ]

  effective_registry-Sound :
      (configs : List McpServerConfig) (builtin : ToolRegistry)
      → Promises builtin
      → Sound (effective_registry serde servers policy configs (inr builtin))
  unfolding effective_registry
  effective_registry-Sound configs builtin p = elim (Bool-cases (any (λ s. s.enabled) configs)) [
    | inl e ↦ rw e (register_servers-Kept 0 _ _ p)
    | inr e ↦ rw e p
  ]

-- What is claimed of a registry of a run: it is built, it is allowed by the policy, and a run with it
-- ends soundly.
abbrev pub RunsSoundly :
    ToolRegistry
    → McpPolicy
    → Env
    → Serde
    → AgentSettings
    → ChatRequest
    → Bool
    → GenerationRun
    → Building
    → Type 0
RunsSoundly builtin policy env serde settings request native run (inl e) = ⊥
RunsSoundly builtin policy env serde settings request native run (inr registry) =
    AllowedBuilding builtin policy (inr registry)
    × All SoundEnd (
        run_harness (record { env = env; serde = serde; registry = registry; settings = settings })
          request native run)

RunsSoundly-intro :
    (builtin : ToolRegistry) (policy : McpPolicy) (env : Env) (serde : Serde)
    (settings : AgentSettings) (request : ChatRequest) (native : Bool) (run : GenerationRun)
    (b : Building)
    → Fits run.workspace
    → AllowedBuilding builtin policy b
    → Sound b
    → RunsSoundly builtin policy env serde settings request native run b
RunsSoundly-intro builtin policy env serde settings request native run (inl e) f a s = a
RunsSoundly-intro builtin policy env serde settings request native run (inr registry) f a s =
    (a, run_harness-SoundEnd _ request native run s f)

-- Whatever servers are configured and whatever they reply, the registry of a run can be built, has at
-- most 128 tools besides the built-in ones, each let in by the policy, and a run with it that starts
-- with a workspace within the limit has no panic and finishes only with a completed record whose
-- workspace holds the text that is sent, not empty and within the limit.
pub effective_run-SoundEnd :
    (fl : Floats) (dice : Dice) (read : ReadPolicy) (settings : Assoc Value)
    (override_config : Value) (servers : Servers) (configs : List McpServerConfig) (env : Env)
    (serde : Serde) (agent : AgentSettings) (request : ChatRequest) (native : Bool)
    (run : GenerationRun)
    → Fits run.workspace
    → RunsSoundly
        (builtin_is_built fl dice).0
        (effective_mcp_policy read settings override_config)
        env
        serde
        agent
        request
        native
        run
        (build_effective_tool_registry serde servers read fl dice settings override_config configs)
unfolding build_effective_tool_registry
effective_run-SoundEnd fl dice read settings override_config servers configs env serde agent request
      native run f =
    let (builtin, e) = builtin_is_built fl dice in
    let policy = effective_mcp_policy read settings override_config in
    rw e (
      RunsSoundly-intro builtin policy env serde agent request native run _ f
        (effective_registry-Allowed builtin policy serde servers configs)
        (effective_registry-Sound serde servers policy configs builtin
          (builtin-Promises fl dice builtin e)))
