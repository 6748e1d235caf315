-- ===== src/Mcp/Session.antt =====
-- shirita-core/src/mcp/mod.rs: an established session with a server of tools, the discovery of its
-- tools and a call of one. The transport is a function from a message to the reply, none for an error.
use shirita.Prelude.{
  ℕ, zero, suc, ◌+◌, ◌-◌, ◌^◌, min, Option, none, some, Bool, List, [], ◌∷◌, ◌++◌, ltb, leb,
  if◌then◌else◌, ◌⊎◌, inl, inr, is_empty, length,
}
use shirita.Text.{Text, codes, text_eq, byte_len, join}
use shirita.Json.{
  str_at, array_at, bool_at, or_nothing, or_false, or_no_items, Value, null, number, pos_int,
  object, end, field, Serde, get,
}
use shirita.Tools.{json_len, contains}
use shirita.Tools.Builtin.{usize_add}

abbrev pub max_discovery_pages : ℕ
max_discovery_pages = 16

abbrev pub max_tools_per_server : ℕ
max_tools_per_server = 256

abbrev pub max_tool_name_bytes : ℕ
max_tool_name_bytes = 512

abbrev pub max_tool_description_bytes : ℕ
max_tool_description_bytes = 16384

abbrev pub max_tool_schema_bytes : ℕ
max_tool_schema_bytes = 65536

abbrev pub max_result_text_bytes : ℕ
max_result_text_bytes = 65536

pub record McpToolDef : Type 0 where
  pub name : Text
  pub description : Text
  pub input_schema : Value

pub record McpCallResult : Type 0 where
  pub is_error : Bool
  pub text : Text
  pub structured : Option Value

pub data McpError : Type 0 where
  request_failed too_many_pages missing_name : McpError
  name_too_large description_too_large schema_too_large too_many_tools : McpError
  cursor_loop text_too_large : McpError
  -- The error of a JSON-RPC message, and a message with neither.
  rpc_error : Value → McpError
  missing_result : McpError

pub record McpSession : Type 0 where
  pub server_id : Text
  pub next_id : ℕ
  pub transport : Value → Option Value

abbrev str : Text → Value
str s = Value.text s

abbrev rpc_message : ℕ → Text → Value → Value
rpc_message id method params = object (
    field (codes "id") (number (pos_int id)) (
      field (codes "jsonrpc") (str (codes "2.0"))
        (field (codes "method") (str method) (field (codes "params") params end))))

unfoldable pub request : McpSession → Text → Value → Option Value × McpSession
request session method params =
    let id = min (session.next_id + 1) (2 ^ 64 - 1) in
    (session.transport (rpc_message id method params), record session { next_id = id })

abbrev or_object : Option Value → Value
or_object none = object (field (codes "type") (str (codes "object")) end)
or_object (some v) = v

-- The limits of one entry, in the order of the checks.
unfoldable pub check_tool : Serde → McpToolDef → McpError ⊎ McpToolDef
check_tool serde tool =
    if ltb max_tool_name_bytes (byte_len tool.name)
    then inl name_too_large
    else if ltb max_tool_description_bytes (byte_len tool.description)
    then inl description_too_large
    else if ltb max_tool_schema_bytes (json_len serde tool.input_schema)
    then inl schema_too_large
    else inr tool

unfoldable pub read_tool : Serde → Value → McpError ⊎ McpToolDef
read_tool serde t = elim (str_at t (codes "name")) [
  | none ↦ inl missing_name
  | some name ↦ check_tool serde (record {
    name = name;
    description = or_nothing (str_at t (codes "description"));
    input_schema = or_object (get t (codes "inputSchema"));
  })
]

unfoldable pub push_tool : List McpToolDef → McpToolDef → McpError ⊎ List McpToolDef
push_tool tools tool =
    let pushed = tools ++ tool ∷ [] in
    if ltb max_tools_per_server (length pushed) then inl too_many_tools else inr pushed

unfoldable pub take_tool : Serde → List McpToolDef → Value → McpError ⊎ List McpToolDef
take_tool serde tools t = elim (read_tool serde t) [
  | inl e ↦ inl e
  | inr tool ↦ push_tool tools tool
]

unfoldable pub read_page : Serde → List McpToolDef → List Value → McpError ⊎ List McpToolDef
read_page serde tools [] = inr tools
read_page serde tools (t ∷ rest) = elim (take_tool serde tools t) [
  | inl e ↦ inl e
  | inr more ↦ read_page serde more rest
]

unfoldable pub cursor_of : Option Value → Option Value
cursor_of none = none
cursor_of (some null) = none
cursor_of (some c) = some c

-- What the loop over the pages does after one of them.
pub data Paged : Type 0 where
  broken : McpError → Paged
  complete : List McpToolDef → Paged
  next_page : List McpToolDef → Value → Text → Paged

unfoldable pub after_page : Serde → List Text → Value → List McpToolDef → Paged
after_page serde seen res tools = elim (cursor_of (get res (codes "nextCursor"))) [
  | none ↦ complete tools
  | some c ↦
      let cursor_key = or_nothing (serde.to_string c) in
      if contains seen cursor_key then broken cursor_loop else next_page tools c cursor_key
]

unfoldable pub take_page : Serde → List Text → List McpToolDef → Option Value → Paged
take_page serde seen tools none = broken request_failed
take_page serde seen tools (some res) =
    elim (read_page serde tools (or_no_items (array_at res (codes "tools")))) [
      | inl e ↦ broken e
      | inr more ↦ after_page serde seen res more
    ]

abbrev pub cursor_params : Option Value → Value
cursor_params none = object end
cursor_params (some c) = object (field (codes "cursor") c end)

-- The loop; its number is how many more pages it may ask for.
unfoldable pub list_pages :
    Serde
    → ℕ
    → McpSession
    → Option Value
    → List Text
    → List McpToolDef
    → (McpError ⊎ List McpToolDef) × McpSession
list_pages serde zero session cursor seen tools = (inl too_many_pages, session)
list_pages serde (suc n) session cursor seen tools =
    let r = request session (codes "tools/list") (cursor_params cursor) in
    elim (take_page serde seen tools r.0) [
      | broken e ↦ (inl e, r.1)
      | complete all ↦ (inr all, r.1)
      | next_page more c cursor_key ↦ list_pages serde n r.1 (some c) (cursor_key ∷ seen) more
    ]

unfoldable pub list_tools : Serde → McpSession → (McpError ⊎ List McpToolDef) × McpSession
list_tools serde session = list_pages serde max_discovery_pages session none [] []

-- The text so far and the types of the blocks that are not text.
abbrev pub Content : Type 0
Content = Text × List Text

unfoldable pub push_text : Content → Option Text → Option Content
push_text acc none = some acc
push_text acc (some t) =
    if ltb max_result_text_bytes (usize_add (byte_len acc.0) (byte_len t))
    then none
    else some (acc.0 ++ t, acc.1)

unfoldable pub push_block : Content → Value → Option Text → Option Content
push_block acc block none = some (acc.0, acc.1 ++ codes "unknown" ∷ [])
push_block acc block (some ty) =
    if text_eq ty (codes "text")
    then push_text acc (str_at block (codes "text"))
    else some (acc.0, acc.1 ++ ty ∷ [])

unfoldable pub read_blocks : Content → List Value → Option Content
read_blocks acc [] = some acc
read_blocks acc (block ∷ rest) = elim (push_block acc block (str_at block (codes "type"))) [
  | none ↦ none
  | some more ↦ read_blocks more rest
]

abbrev pub summary_of : List Text → Text
summary_of unsupported =
    codes "[unsupported content: " ++ (join (codes ", ") unsupported ++ codes "]")

unfoldable pub with_summary : Content → Text
with_summary (text, unsupported) =
    if is_empty unsupported
    then text
    else if is_empty text
    then summary_of unsupported
    else if leb (usize_add (byte_len text) (byte_len (summary_of unsupported)))
        max_result_text_bytes
    then text ++ (codes "\n" ++ summary_of unsupported)
    else text

unfoldable pub read_result : Value → McpError ⊎ McpCallResult
read_result res = elim (read_blocks ([], []) (or_no_items (array_at res (codes "content")))) [
  | none ↦ inl text_too_large
  | some content ↦ inr (record {
    is_error = or_false (bool_at res (codes "isError"));
    text = with_summary content;
    structured = get res (codes "structuredContent");
  })
]

unfoldable pub call_tool : McpSession → Text → Value → (McpError ⊎ McpCallResult) × McpSession
call_tool session name arguments =
    let r =
      request session (codes "tools/call")
        (object (field (codes "arguments") arguments (field (codes "name") (str name) end))) in
    (elim r.0 [ none ↦ inl request_failed | some res ↦ read_result res ], r.1)

-- The error of a message that is not null.
unfoldable pub error_of : Option Value → Option Value
error_of none = none
error_of (some null) = none
error_of (some e) = some e

unfoldable pub parse_result : Value → McpError ⊎ Value
parse_result message = elim (error_of (get message (codes "error"))) [
  | some e ↦ inl (rpc_error e)
  | none ↦ elim (get message (codes "result")) [ none ↦ inl missing_result | some v ↦ inr v ]
]
