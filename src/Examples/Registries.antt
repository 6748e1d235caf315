-- ===== src/Examples/Registries.antt =====
-- The generations of two sessions, and servers of tools.
use shirita.Prelude.{◌≡◌, ◌≢◌, ◌+◌, ◌≤◌, List, [], ◌∷◌, ◌++◌, refl, true, none, some, arith}
use shirita.Text.{Text, codes, text_eq, trim, trim_start, trim_end, byte_len}
use shirita.Json.{null}
use shirita.Authorization.{timed_out}
use shirita.Mcp.{
  McpServerConfig, stdio, merge_secrets, redacted, has_secrets, any_value, validate, id_ok,
  validate_transport, validate_stdio, too_large,
}
use shirita.Mcp.Http.{validate_url, http_scheme}
use shirita.Mcp.Secrets.{DistinctNames, pairs_of, merge_secrets-redacted}
use shirita.Mcp.Accepted.{validate-merge_secrets}
use shirita.Mcp.Session.{McpSession, list_tools, call_tool}
use shirita.Mcp.Discovery.{Good, list_tools-Listed}
use shirita.Mcp.Replies.{BoundedReply, call_tool-BoundedReply}
use shirita.Mcp.Loopback.{validate_url-bracket}
use shirita.Mcp.Registry.{Servers, effective_mcp_policy, build_effective_tool_registry}
use shirita.Mcp.Registry.Sound.{RunsSoundly, effective_run-SoundEnd}
use shirita.AgentLoop.Outcome.Builtin.{builtin_is_built}
use shirita.Examples.Loop.{calm, plain_serde, settings, hello, fresh_run}
use shirita.Examples.Tools.{whole_numbers, loaded_dice, fresh_run-Fits}
use shirita.Assoc.{lookup}
use shirita.Generations.{finish}
use shirita.Generations.History.{Call, replaced, finished, stopped, after, in_flight, lookup-after}
use shirita.Generations.Superseded.{Settled, after-Settled, finish-taken}

abbrev one : Text
one = codes "one"

abbrev two : Text
two = codes "two"

-- Newest first: the first generation of the session is replaced, and another session ends its own.
abbrev before : List Call
before = replaced two 1 1 ∷ []

abbrev since : List Call
since = stopped one ∷ replaced one 5 6 ∷ finished two 0 ∷ []

abbrev calls : List Call
calls = since ++ (replaced one 3 4 ∷ before)

lookup-after_example : lookup one (after calls).slots ≡ in_flight one calls
lookup-after_example = lookup-after calls one

after-Settled_example : Settled one 1 3 4 true (after calls)
unfolding text_eq
after-Settled_example = after-Settled since before one 3 4 refl

finish-taken_example : finish (after calls) one 1 ≡ after calls
unfolding text_eq
finish-taken_example = finish-taken since before one 3 4 refl (omega arith)

abbrev mute : McpSession
mute = record { server_id = codes "s"; next_id = 0; transport = λ message. none }

abbrev no_servers : Servers
no_servers = record {
  connect = λ config. some mute;
  session_at = λ id moment. mute;
  waits = λ id tool moment call. timed_out;
}

abbrev with_token : McpServerConfig
with_token = record {
  id = codes "s";
  name = codes "Server";
  enabled = true;
  transport =
      stdio (codes "run") (codes "-v" ∷ []) ((codes "TOKEN", codes "t") ∷ (codes "HOME", []) ∷ []);
  request_timeout_ms = 1000;
  has_secret = true;
}

with_token-DistinctNames : DistinctNames (pairs_of with_token.transport)
unfolding text_eq
with_token-DistinctNames = ((refl, tt), (tt, tt))

with_token-has_secrets : true ≡ has_secrets with_token.transport
unfolding has_secrets any_value
with_token-has_secrets = refl

merge_secrets-redacted_example : merge_secrets with_token (redacted with_token) ≡ with_token
merge_secrets-redacted_example =
    merge_secrets-redacted with_token with_token-DistinctNames with_token-has_secrets

with_token-valid : validate with_token ≡ none
unfolding validate id_ok validate_transport validate_stdio trim trim_start trim_end too_large
    byte_len
with_token-valid = refl

validate-merge_secrets_example : validate (merge_secrets with_token with_token) ≡ none
validate-merge_secrets_example =
    validate-merge_secrets with_token with_token with_token-valid with_token-valid

list_tools-Listed_example :
    Good plain_serde (list_tools plain_serde mute).0
    × ((list_tools plain_serde mute).1.next_id ≤ 0 + 16)
list_tools-Listed_example = list_tools-Listed plain_serde mute

call_tool-BoundedReply_example : BoundedReply (call_tool mute (codes "t") null).0
call_tool-BoundedReply_example = call_tool-BoundedReply mute (codes "t") null

validate_url-bracket_example : validate_url (http_scheme ++ (91 ∷ codes "::1]:8000/mcp")) ≢ none
validate_url-bracket_example = validate_url-bracket (codes "::1]:8000/mcp")

effective_run-SoundEnd_example :
    RunsSoundly
      (builtin_is_built whole_numbers loaded_dice).0
      (effective_mcp_policy (λ v. none) [] null)
      calm
      plain_serde
      settings
      hello
      true
      fresh_run
      (build_effective_tool_registry plain_serde no_servers
        (λ v. none)
        whole_numbers
        loaded_dice
        []
        null
        (with_token ∷ []))
effective_run-SoundEnd_example =
    effective_run-SoundEnd whole_numbers loaded_dice (λ v. none) [] null no_servers
      (with_token ∷ []) calm plain_serde settings hello true fresh_run fresh_run-Fits
