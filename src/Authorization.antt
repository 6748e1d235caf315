-- ===== src/Authorization.antt =====
-- shirita-core/src/mcp/authorization.rs: the broker of one-time authorizations. A step of the broker
-- is what happens while its mutex is held.
pub mod Once
pub mod Redaction
use shirita.Prelude.{
  ℕ, Option, none, some, Bool, true, false, ◌||◌, ◌&&◌, List, [], ◌∷◌, ◌++◌, any, map, keep, ltb,
  leb, take, drop, length, ◌-◌, if◌then◌else◌,
}
use shirita.Text.{Text, codes, text_eq, to_ascii_lowercase}
use shirita.Json.{
  Value, Items, Fields, null, bool, number, array, object, nil, cons, end, field, Serde,
}
use shirita.Assoc.{Assoc, lookup, insert, remove}

pub data AuthorizationDecision : Type 0 where
  approved denied expired : AuthorizationDecision

pub record PendingAuthorizationInfo : Type 0 where
  pub run_id : Text
  pub call_id : Text
  pub server_id : Text
  pub tool_name : Text
  pub preview : Text

-- The sender of the reply stands in an entry as long as it is pending; it is left out, since an
-- entry leaves the map where its reply is sent.
pub record PendingAuthorization : Type 0 where
  pub run_id : Text
  pub call_id : Text
  pub session_id : Text
  pub server_id : Text
  pub tool_name : Text
  pub arguments : Value
  pub preview : Text

abbrev pub AuthorizationBroker : Type 0
AuthorizationBroker = Assoc PendingAuthorization

unfoldable pub key : Text → Text → Text
key run_id call_id = run_id ++ (codes ":" ++ call_id)

abbrev pub ends_with : Text → Text → Bool
ends_with p s = leb (length p) (length s) && text_eq (drop (length s - length p) s) p

abbrev pub sensitive_keys : List Text
sensitive_keys =
    codes "password"
    ∷ codes "token"
    ∷ codes "secret"
    ∷ codes "authorization"
    ∷ codes "auth"
    ∷ codes "cookie"
    ∷ codes "credentials"
    ∷ codes "credential"
    ∷ codes "bearer"
    ∷ codes "api_key"
    ∷ codes "apikey"
    ∷ codes "access_key"
    ∷ codes "accesskey"
    ∷ codes "private_key"
    ∷ codes "privatekey"
    ∷ codes "session"
    ∷ codes "passwd"
    ∷ codes "pw"
    ∷ []

unfoldable pub is_sensitive_key : Text → Bool
is_sensitive_key k =
    let low = to_ascii_lowercase k in
    any (λ needle. text_eq low needle || ends_with needle low) sensitive_keys

abbrev pub redacted : Value
redacted = Value.text (codes "[redacted]")

-- The keys of the new map are those of the old one, in its order.
unfoldable mutual
  pub redact : Value → Value
  redact (object fs) = object (redact_fields fs)
  redact (array vs) = array (redact_items vs)
  redact null = null
  redact (bool b) = bool b
  redact (number n) = number n
  redact (Value.text t) = Value.text t

  pub redact_items : Items → Items
  redact_items nil = nil
  redact_items (cons v vs) = cons (redact v) (redact_items vs)

  pub redact_fields : Fields → Fields
  redact_fields end = end
  redact_fields (field k v fs) =
      field k (if is_sensitive_key k then redacted else redact v) (redact_fields fs)

abbrev pub preview_max_chars : ℕ
preview_max_chars = 512

abbrev pub or_braces : Option Text → Text
or_braces none = codes "{}"
or_braces (some s) = s

-- At most 512 characters, with a mark where some are left out.
unfoldable pub cut_short : Text → Text
cut_short compact =
    let truncated = take preview_max_chars compact in
    if ltb (length truncated) (length compact) then truncated ++ codes "…" else truncated

unfoldable pub bounded_redacted_preview : Serde → Value → Text
bounded_redacted_preview serde arguments =
    let compact = or_braces (serde.to_string (redact arguments)) in cut_short compact

-- `request_and_wait` up to the wait: the entry is registered under its key.
unfoldable pub request :
    Serde → AuthorizationBroker → Text → Text → Text → Text → Text → Value → AuthorizationBroker
request serde broker run_id session_id server_id tool_name call_id arguments =
    insert (key run_id call_id)
      (record {
        run_id = run_id;
        call_id = call_id;
        session_id = session_id;
        server_id = server_id;
        tool_name = tool_name;
        arguments = arguments;
        preview = bounded_redacted_preview serde arguments;
      })
      broker

-- What the wait ends with.
pub data WaitEnd : Type 0 where
  replied : AuthorizationDecision → WaitEnd
  sender_dropped timed_out : WaitEnd

unfoldable pub decision_of : WaitEnd → AuthorizationDecision
decision_of (replied d) = d
decision_of sender_dropped = expired
decision_of timed_out = expired

-- `PendingGuard::drop`, at the end of `request_and_wait` however it ends.
unfoldable pub drop_guard : AuthorizationBroker → Text → Text → AuthorizationBroker
drop_guard broker run_id call_id = remove (key run_id call_id) broker

-- The new broker, and the entry that is taken from it with the decision that its waiter is sent.
unfoldable pub resolve :
    AuthorizationBroker
    → Text
    → Text
    → AuthorizationDecision
    → AuthorizationBroker × Option (PendingAuthorization × AuthorizationDecision)
resolve broker run_id call_id decision = (
  remove (key run_id call_id) broker,
  elim (lookup (key run_id call_id) broker) [ none ↦ none | some entry ↦ some (entry, decision) ],
)

abbrev info_of : PendingAuthorization → PendingAuthorizationInfo
info_of p = record {
  run_id = p.run_id;
  call_id = p.call_id;
  server_id = p.server_id;
  tool_name = p.tool_name;
  preview = p.preview;
}

unfoldable pub pending_for_session : AuthorizationBroker → Text → List PendingAuthorizationInfo
pending_for_session broker session_id =
    map info_of (keep (λ p. text_eq p.session_id session_id) (map (λ e. e.1) broker))
