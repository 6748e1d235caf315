-- ===== src/Mcp/Discovery.antt =====
-- The bounds of the discovery of tools in shirita-core/src/mcp/mod.rs, whatever a server replies.
use shirita.Prelude.{
  ℕ, zero, suc, ◌+◌, ◌≤◌, Option, none, some, List, [], ◌∷◌, ◌++◌, ltb, ◌⊎◌, inl, inr, length,
  arith, All, All-append, Bool-cases, Option-cases,
}
use shirita.Text.{Text, codes, byte_len}
use shirita.Json.{str_at, array_at, bool_at, or_nothing, or_false, or_no_items, Value, Serde}
use shirita.Tools.{json_len, contains}
use shirita.Mcp.Session.{
  McpToolDef, McpError, McpSession, request, check_tool, read_tool, push_tool, take_tool, read_page,
  Paged, broken, complete, next_page, after_page, take_page, list_pages, list_tools,
  max_discovery_pages, max_tools_per_server, max_tool_name_bytes, max_tool_description_bytes,
  max_tool_schema_bytes, cursor_of,
}

-- An entry within the limits on a tool's name, description and schema.
abbrev pub WithinLimits : Serde → McpToolDef → Type 0
WithinLimits serde tool =
    (byte_len tool.name ≤ max_tool_name_bytes)
    × (byte_len tool.description ≤ max_tool_description_bytes)
    × (json_len serde tool.input_schema ≤ max_tool_schema_bytes)

abbrev pub Listed : Serde → List McpToolDef → Type 0
Listed serde tools = All (WithinLimits serde) tools × (length tools ≤ max_tools_per_server)

abbrev pub Result : Type 0
Result = McpError ⊎ List McpToolDef

abbrev pub Good : Serde → Result → Type 0
Good serde (inl e) = Unit
Good serde (inr tools) = Listed serde tools

abbrev GoodTool : Serde → McpError ⊎ McpToolDef → Type 0
GoodTool serde (inl e) = Unit
GoodTool serde (inr tool) = WithinLimits serde tool

abbrev GoodPage : Serde → Paged → Type 0
GoodPage serde (broken e) = Unit
GoodPage serde (complete tools) = Listed serde tools
GoodPage serde (next_page tools c k) = Listed serde tools

check_tool-GoodTool : (serde : Serde) (tool : McpToolDef) → GoodTool serde (check_tool serde tool)
unfolding check_tool
check_tool-GoodTool serde tool = elim (Bool-cases (ltb max_tool_name_bytes (byte_len tool.name))) [
  | inl e ↦ rw e tt
  | inr e ↦ rw e (elim (Bool-cases (ltb max_tool_description_bytes (byte_len tool.description))) [
    | inl f ↦ rw f tt
    | inr f ↦
        rw f (elim (Bool-cases (ltb max_tool_schema_bytes (json_len serde tool.input_schema))) [
          | inl g ↦ rw g tt
          | inr g ↦ rw g (ground arith, ground arith, ground arith)
        ])
  ])
]

read_tool-GoodTool : (serde : Serde) (t : Value) → GoodTool serde (read_tool serde t)
unfolding read_tool
read_tool-GoodTool serde t = elim (Option-cases (str_at t (codes "name"))) [
  | inl e ↦ rw (e, GoodTool) tt
  | inr (name, e) ↦ rw (e, GoodTool) (check_tool-GoodTool serde _)
]

push_tool-Good :
    (serde : Serde) (tools : List McpToolDef) (tool : McpToolDef)
    → All (WithinLimits serde) tools
    → WithinLimits serde tool
    → Good serde (push_tool tools tool)
unfolding push_tool
push_tool-Good serde tools tool p q =
    elim (Bool-cases (ltb max_tools_per_server (length (tools ++ tool ∷ [])))) [
      | inl e ↦ rw e tt
      | inr e ↦ rw e (All-append (WithinLimits serde) tools (tool ∷ []) p (q, tt), ground arith)
    ]

take_tool-Good :
    (serde : Serde) (tools : List McpToolDef) (t : Value)
    → Listed serde tools
    → Good serde (take_tool serde tools t)
unfolding take_tool
take_tool-Good serde tools t p = go (read_tool serde t) (read_tool-GoodTool serde t)
  where
    go :
        (r : McpError ⊎ McpToolDef)
        → GoodTool serde r
        → Good serde (elim r as (λ _. Result) [ inl e ↦ inl e | inr tool ↦ push_tool tools tool ])
    go (inl e) g = tt
    go (inr tool) g = push_tool-Good serde tools tool p.0 g

read_page-Good :
    (serde : Serde) (tools : List McpToolDef) (ts : List Value)
    → Listed serde tools
    → Good serde (read_page serde tools ts)
unfolding read_page
read_page-Good serde tools [] p = p
read_page-Good serde tools (t ∷ ts) p =
    go (take_tool serde tools t) (take_tool-Good serde tools t p)
      (λ more. read_page-Good serde more ts)
  where
    go :
        (r : Result)
        → Good serde r
        → ((more : List McpToolDef) → Listed serde more → Good serde (read_page serde more ts))
        → Good serde
            (elim r as (λ _. Result) [ inl e ↦ inl e | inr more ↦ read_page serde more ts ])
    go (inl e) g h = tt
    go (inr more) g h = h more g

after_page-GoodPage :
    (serde : Serde) (seen : List Text) (res : Value) (tools : List McpToolDef)
    → Listed serde tools
    → GoodPage serde (after_page serde seen res tools)
unfolding after_page
after_page-GoodPage serde seen res tools p =
    elim (Option-cases (cursor_of (shirita.Json.get res (codes "nextCursor")))) [
      | inl e ↦ rw (e, GoodPage) p
      | inr (c, e) ↦
          rw (e, GoodPage)
            (elim (Bool-cases (contains seen (or_nothing (serde.to_string c)))) [
              | inl f ↦ rw f tt
              | inr f ↦ rw f p
            ])
    ]

take_page-GoodPage :
    (serde : Serde) (seen : List Text) (tools : List McpToolDef) (reply : Option Value)
    → Listed serde tools
    → GoodPage serde (take_page serde seen tools reply)
unfolding take_page
take_page-GoodPage serde seen tools none p = tt
take_page-GoodPage serde seen tools (some res) p = go _ (read_page-Good serde tools _ p)
  where
    go :
        (r : Result)
        → Good serde r
        → GoodPage serde (elim r as (λ _. Paged) [
          | inl e ↦ broken e
          | inr more ↦ after_page serde seen res more
        ])
    go (inl e) g = tt
    go (inr more) g = after_page-GoodPage serde seen res more g

request-next_id :
    (session : McpSession) (method : Text) (params : Value)
    → (request session method params).1.next_id ≤ session.next_id + 1
unfolding request
request-next_id session method params = omega arith

list_pages-Good :
    (serde : Serde) (n : ℕ) (session : McpSession) (cursor : Option Value) (seen : List Text)
    (tools : List McpToolDef)
    → Listed serde tools
    → Good serde (list_pages serde n session cursor seen tools).0
      × ((list_pages serde n session cursor seen tools).1.next_id ≤ session.next_id + n)
unfolding list_pages
list_pages-Good serde zero session cursor seen tools p = (tt, omega arith)
list_pages-Good serde (suc n) session cursor seen tools p =
    let r = request session (codes "tools/list") (shirita.Mcp.Session.cursor_params cursor) in
    go r (request-next_id session _ _) (take_page serde seen tools r.0)
      (take_page-GoodPage serde seen tools r.0 p)
      (λ s c k more. list_pages-Good serde n s (some c) (k ∷ seen) more)
  where
    go :
        (r : Option Value × McpSession)
        → r.1.next_id ≤ session.next_id + 1
        → (q : Paged) → GoodPage serde q
        → ((s : McpSession) (c : Value) (k : Text) (more : List McpToolDef)
            → Listed serde more
            → Good serde (list_pages serde n s (some c) (k ∷ seen) more).0
              × ((list_pages serde n s (some c) (k ∷ seen) more).1.next_id ≤ s.next_id + n))
        → let out : Result × McpSession = elim q as (λ _. Result × McpSession) [
          | broken e ↦ (inl e, r.1)
          | complete all ↦ (inr all, r.1)
          | next_page more c k ↦ list_pages serde n r.1 (some c) (k ∷ seen) more
        ] in
          Good serde out.0 × (out.1.next_id ≤ session.next_id + suc n)
    go r l (broken e) g h = (tt, omega (arith, l))
    go r l (complete all) g h = (g, omega (arith, l))
    go r l (next_page more c k) g h = let (a, b) = h r.1 c k more g in (a, omega (arith, l, b))

-- However a server replies, the discovery ends after at most 16 requests, with an error or with at
-- most 256 tools whose names, descriptions and schemas are within their limits.
pub list_tools-Listed :
    (serde : Serde) (session : McpSession)
    → Good serde (list_tools serde session).0
      × ((list_tools serde session).1.next_id ≤ session.next_id + 16)
unfolding list_tools
list_tools-Listed serde session =
    list_pages-Good serde max_discovery_pages session none [] [] (tt, omega arith)
