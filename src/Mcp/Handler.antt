-- ===== src/Mcp/Handler.antt =====
-- shirita-core/src/mcp/mod.rs: the handler of a tool that a server offers.
use shirita.Prelude.{Option, none, some, Bool, true, false, ◌⊎◌, inl, inr, if◌then◌else◌}
use shirita.Text.{Text, codes}
use shirita.Json.{Value, object, end, field}
use shirita.Tools.{
  ToolHandler, ToolCall, ToolExecution, ToolResult, ErrorCode, other, Moment, no_control, reject,
  accept, rejected, failed,
}
use shirita.Authorization.{AuthorizationDecision, approved, denied, expired, WaitEnd, decision_of}
use shirita.Mcp.Policy.{McpAccess, allow, ask}
use shirita.Mcp.Session.{McpSession, McpCallResult, McpError, call_tool}

-- What a handler meets at the moment of a call: the session with the server as it then stands, and
-- what the wait of a request to the broker ends with.
pub record McpTool : Type 0 where
  pub server_id : Text
  pub tool_name : Text
  pub access : McpAccess
  pub session : Moment → McpSession
  pub waits : Moment → ToolCall → WaitEnd

unfoldable pub is_approved : AuthorizationDecision → Bool
is_approved approved = true
is_approved denied = false
is_approved expired = false

unfoldable pub needs_decision : McpAccess → Bool
needs_decision allow = false
needs_decision ask = true

abbrev pub authorization_denied : ErrorCode
authorization_denied = other (codes "authorization_denied")

abbrev text_output : Text → Value
text_output t = object (field (codes "text") (Value.text t) end)

abbrev or_text : McpCallResult → Option Value → Value
or_text r none = text_output r.text
or_text r (some v) = v

abbrev ended_with : ToolCall → ToolResult → ToolExecution
ended_with call result = record { result = result; control = no_control }

-- The result that the model sees of a reply.
unfoldable pub execution_of : ToolCall → McpError ⊎ McpCallResult → ToolExecution
execution_of call (inr r) =
    if r.is_error
    then ended_with call (record {
      call_id = call.id;
      name = call.name;
      status = rejected;
      output = text_output r.text;
      error_code = some (other (codes "execution_failed"));
    })
    else accept call (or_text r r.structured) no_control
execution_of call (inl e) = ended_with call (record {
  call_id = call.id;
  name = call.name;
  status = failed;
  output = object end;
  error_code = some (other (codes "provider_unavailable"));
})

unfoldable pub call_session : McpTool → Moment → ToolCall → ToolExecution
call_session tool moment call =
    execution_of call (call_tool (tool.session moment) tool.tool_name call.arguments).0

unfoldable pub mcp_tool : McpTool → ToolHandler
mcp_tool tool moment call =
    if needs_decision tool.access
    then if is_approved (decision_of (tool.waits moment call))
      then call_session tool moment call
      else reject call authorization_denied
    else call_session tool moment call
