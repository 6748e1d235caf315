-- ===== src/Mcp/Registry/Allowed.antt =====
-- What stands in the registry of a run of shirita-core/src/mcp/registry.rs besides the built-in tools.
use shirita.Prelude.{
  ℕ, suc, ◌+◌, ◌≤◌, ◌<◌, ◌≡◌, refl, ap, subst, Option, none, some, false, List, [], ◌∷◌, any, leb,
  ◌⊎◌, inl, inr, length, arith, Bool-cases,
}
use shirita.Text.{Text, text_eq, text_eq_iff}
use shirita.Json.{Serde}
use shirita.Assoc
use shirita.Assoc.{Assoc, lookup, insert, contains_key, lookup-insert, lookup-contains_key}
use shirita.Tools.{ToolSpec, ToolHandler, ToolRegistry, mcp, register, valid_name}
use shirita.Tools.Registry.{Building}
use shirita.Mcp.{McpServerConfig}
use shirita.Mcp.Policy.{McpAccess, McpPolicy, mcp_tool_name}
use shirita.Mcp.Session.{McpSession, McpToolDef, McpError}
use shirita.Mcp.Handler.{needs_decision}
use shirita.Mcp.Registry.{
  Servers, Growing, grown, offer, register_tools, with_tools, with_session, register_servers,
  mcp_spec, handler_of, effective_registry, max_effective_tools, max_enabled_servers_per_run,
}

length-remove :
    {V : Type 0} (k : Text) (m : Assoc V)
    → contains_key k m ≡ false
    → length (Assoc.remove k m) ≡ length m
unfolding contains_key Assoc.remove
length-remove k [] h = refl
length-remove k ((j, v) ∷ m) h = ground (arith, length-remove k m)

length-insert :
    {V : Type 0} (k : Text) (v : V) (m : Assoc V)
    → contains_key k m ≡ false
    → length (insert k v m) ≡ suc (length m)
unfolding insert
length-insert k v m h = ap suc (length-remove k m h)

-- A specification of a server's tool that the policy lets in, asking for authorization if the policy
-- says so.
abbrev pub LetIn : McpPolicy → Text → ToolSpec → Type 0
LetIn policy name spec =
    (access : McpAccess) × (lookup name policy.tools ≡ some access)
    × (spec.source ≡ mcp)
    × (spec.name ≡ name)
    × (spec.requires_authorization ≡ needs_decision access)

-- A registry that has `n` tools more than the built-in one, each let in by the policy, and has the
-- built-in ones as they were.
pub record Allowed (builtin : ToolRegistry) (policy : McpPolicy) (registry : ToolRegistry) (n : ℕ)
    : Type 0 where
  pub bounded : n ≤ max_effective_tools
  pub counted : length registry.specs ≡ length builtin.specs + n
  pub known :
      (name : Text) (spec : ToolSpec)
      → lookup name registry.specs ≡ some spec
      → (lookup name builtin.specs ≡ some spec) ⊎ LetIn policy name spec
  pub kept :
      (name : Text) (spec : ToolSpec)
      → lookup name builtin.specs ≡ some spec
      → (lookup name registry.specs ≡ some spec)
        × (lookup name registry.handlers ≡ lookup name builtin.handlers)

module _ (builtin : ToolRegistry) (policy : McpPolicy) where
  abbrev Fine : Growing → Type 0
  Fine g = Allowed builtin policy g.builder g.effective_tools

  inserted-Allowed :
      (g : Growing) (spec : ToolSpec) (handler : ToolHandler)
      → Fine g
      → g.effective_tools < max_effective_tools
      → contains_key spec.name g.builder.specs ≡ false
      → LetIn policy spec.name spec
      → Allowed builtin policy
          (record {
            specs = insert spec.name spec g.builder.specs;
            handlers = insert spec.name handler g.builder.handlers;
          })
          (g.effective_tools + 1)
  inserted-Allowed g spec handler f l c a = record {
    bounded = omega (arith, l);
    counted = omega (arith, length-insert spec.name spec g.builder.specs c, f.counted);
    known = λ name s h.
        let i = lookup-insert spec.name name spec g.builder.specs in
        elim (Bool-cases (text_eq spec.name name)) [
          | inl e ↦
              let named = (text_eq_iff spec.name name).0 e in
              let same : spec ≡ s = ground arith in
              inr (subst (λ x. LetIn policy name x) same (subst (λ x. LetIn policy x spec) named a))
          | inr e ↦ f.known name s (ground arith)
        ];
    kept = λ name s h.
        let (old, handled) = f.kept name s h in
        let absent = lookup-contains_key spec.name g.builder.specs c in
        let i = lookup-insert spec.name name spec g.builder.specs in
        let j = lookup-insert spec.name name handler g.builder.handlers in
        elim (Bool-cases (text_eq spec.name name)) [
          | inl e ↦
              let named = (text_eq_iff spec.name name).0 e in
              let gone : lookup name g.builder.specs ≡ none =
                subst (λ x. lookup x g.builder.specs ≡ none) named absent in
              absurd (ground arith)
          | inr e ↦ (ground arith, ground arith)
        ];
  }

  grown-Allowed :
      (g : Growing) (spec : ToolSpec) (handler : ToolHandler)
      → Fine g
      → g.effective_tools < max_effective_tools
      → LetIn policy spec.name spec
      → Fine (grown g (register g.builder spec handler))
  unfolding register grown
  grown-Allowed g spec handler f l a = elim (Bool-cases (valid_name spec.name)) [
    | inl e ↦ elim (Bool-cases (contains_key spec.name g.builder.specs)) [
      | inl c ↦ rw (e, c, grown) f
      | inr c ↦ rw (e, c, grown) (inserted-Allowed g spec handler f l c a)
    ]
    | inr e ↦ rw (e, grown) f
  ]

  module _ (servers : Servers) (server_id : Text) where
    offer-Fine :
        (g : Growing) (tool : McpToolDef) (o : Option McpAccess)
        → lookup (mcp_tool_name server_id tool.name) policy.tools ≡ o
        → Fine g
        → g.effective_tools < max_effective_tools
        → Fine (offer servers server_id g tool o)
    unfolding offer
    offer-Fine g tool none e f l = f
    offer-Fine g tool (some access) e f l =
        grown-Allowed g (mcp_spec server_id tool access) (handler_of servers server_id tool access)
          f l (access, e, refl, refl, refl)

    register_tools-Fine :
        (g : Growing) (tools : List McpToolDef)
        → Fine g
        → Fine (register_tools servers policy server_id g tools)
    unfolding register_tools
    register_tools-Fine g [] f = f
    register_tools-Fine g (tool ∷ rest) f =
        elim (Bool-cases (leb max_effective_tools g.effective_tools)) [
          | inl e ↦ rw (e, register_tools) f
          | inr e ↦
              rw (e, register_tools)
                (register_tools-Fine
                  (offer servers server_id g tool
                    (lookup (mcp_tool_name server_id tool.name) policy.tools))
                  rest (offer-Fine g tool _ refl f (ground arith)))
        ]

    with_tools-Fine :
        (g : Growing) (r : McpError ⊎ List McpToolDef)
        → Fine g
        → Fine (with_tools servers policy server_id g r)
    unfolding with_tools
    with_tools-Fine g (inl e) f = f
    with_tools-Fine g (inr tools) f = register_tools-Fine g tools f

    with_session-Fine :
        (serde : Serde) (g : Growing) (o : Option McpSession)
        → Fine g
        → Fine (with_session serde servers policy server_id g o)
    unfolding with_session
    with_session-Fine serde g none f = f
    with_session-Fine serde g (some session) f = with_tools-Fine g _ f

  register_servers-Fine :
      (serde : Serde) (servers : Servers) (n : ℕ) (g : Growing) (configs : List McpServerConfig)
      → Fine g
      → Fine (register_servers serde servers policy n g configs)
  unfolding register_servers
  register_servers-Fine serde servers n g [] f = f
  register_servers-Fine serde servers n g (server ∷ rest) f =
      elim (Bool-cases (leb max_enabled_servers_per_run n)) [
        | inl e ↦ rw (e, register_servers) (register_servers-Fine serde servers n g rest f)
        | inr e ↦ elim (Bool-cases (leb max_effective_tools g.effective_tools)) [
          | inl d ↦ rw (e, d, register_servers) f
          | inr d ↦
              rw (e, d, register_servers)
                (register_servers-Fine serde servers (suc n)
                  (with_session serde servers policy server.id g (servers.connect server)) rest
                  (with_session-Fine servers server.id serde g (servers.connect server) f))
        ]
      ]

  nothing-Allowed : Allowed builtin policy builtin 0
  nothing-Allowed = record {
    bounded = omega arith;
    counted = omega arith;
    known = λ name spec h. inl h;
    kept = λ name spec h. (h, refl);
  }

  -- A registry that is built, and allowed by the policy.
  abbrev pub AllowedBuilding : Building → Type 0
  AllowedBuilding (inl e) = ⊥
  AllowedBuilding (inr registry) = (n : ℕ) × Allowed builtin policy registry n

  -- The registry of a run can be built, and has at most 128 tools besides the given ones. Each of
  -- them comes from a server and is named in the policy, whose access decides whether it asks for
  -- authorization; every given tool keeps its specification and its handler.
  pub effective_registry-Allowed :
      (serde : Serde) (servers : Servers) (configs : List McpServerConfig)
      → AllowedBuilding (effective_registry serde servers policy configs (inr builtin))
  unfolding effective_registry
  effective_registry-Allowed serde servers configs =
      elim (Bool-cases (any (λ s. s.enabled) configs)) [
        | inl e ↦ rw e (_, register_servers-Fine serde servers 0 _ _ nothing-Allowed)
        | inr e ↦ rw e (0, nothing-Allowed)
      ]
