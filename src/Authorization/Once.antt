-- ===== src/Authorization/Once.antt =====
-- A pending request is decided once, with the arguments that were asked for.
use shirita.Prelude.{◌≡◌, false}
use shirita.Text.{Text, text_eq}
use shirita.Json.{Value, Serde}
use shirita.Authorization.{
  AuthorizationBroker, AuthorizationDecision, PendingAuthorization, key, request, resolve,
  drop_guard, bounded_redacted_preview,
}

-- The broker after a sequence of steps for other requests.
pub data Step : AuthorizationBroker → AuthorizationBroker → Text → Type 0 where
  asked :
      {b : AuthorizationBroker} (serde : Serde) (run session server tool call : Text) (v : Value)
      → Step b (request serde b run session server tool call v) (key run call)
  decided :
      {b : AuthorizationBroker} (run call : Text) (d : AuthorizationDecision)
      → Step b (resolve b run call d).0 (key run call)
  dropped :
      {b : AuthorizationBroker} (run call : Text) → Step b (drop_guard b run call) (key run call)

pub data Steps (k : Text) : AuthorizationBroker → AuthorizationBroker → Type 0 where
  stay : {b : AuthorizationBroker} → Steps k b b
  step :
      {b c d : AuthorizationBroker} {j : Text}
      → Step b c j
      → text_eq j k ≡ false
      → Steps k c d
      → Steps k b d

abbrev asked_entry : Serde → Text → Text → Text → Text → Text → Value → PendingAuthorization
asked_entry serde run session server tool call v = record {
  run_id = run;
  call_id = call;
  session_id = session;
  server_id = server;
  tool_name = tool;
  arguments = v;
  preview = bounded_redacted_preview serde v;
}
