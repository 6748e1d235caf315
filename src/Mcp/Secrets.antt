-- ===== src/Mcp/Secrets.antt =====
-- Secrets of shirita-core/src/mcp/mod.rs: what a redacted copy leaves out is what the merge puts back.
use shirita.Prelude.{◌≡◌, refl, ap, ◌∙◌, false, [], ◌∷◌, map, find_by, arith, All}
use shirita.Text.{Text, text_eq, text_eq_refl}
use shirita.Mcp.{
  Pairs, McpTransportConfig, stdio, streamable_http, McpServerConfig, any_value, blank, has_secrets,
  redacted_transport, redacted, or_empty, stored_value, merge_pairs, env_of, headers_of,
  merge_transport, merge_secrets,
}

-- No two entries have the same name.
abbrev pub DistinctNames : Pairs → Type 0
DistinctNames [] = Unit
DistinctNames (p ∷ ps) = All (λ q. text_eq p.0 q.0 ≡ false) ps × DistinctNames ps

abbrev pub pairs_of : McpTransportConfig → Pairs
pairs_of (stdio command args env) = env
pairs_of (streamable_http url headers) = headers

any_value-blank : (ps : Pairs) → any_value (blank ps) ≡ false
unfolding any_value blank
any_value-blank [] = refl
any_value-blank (p ∷ ps) = ground (arith, any_value-blank ps)

names-blank : (ps : Pairs) → map (λ p. p.0) (blank ps) ≡ map (λ p. p.0) ps
unfolding blank
names-blank [] = refl
names-blank (p ∷ ps) = ap (λ ns. p.0 ∷ ns) (names-blank ps)

stored_value-miss :
    (p : Text × Text) (stored : Pairs) (key : Text)
    → text_eq p.0 key ≡ false
    → stored_value (p ∷ stored) key ≡ stored_value stored key
unfolding stored_value
stored_value-miss p stored key n = rw (n, find_by)

stored_value-hit : (key v : Text) (stored : Pairs) → stored_value ((key, v) ∷ stored) key ≡ v
unfolding stored_value or_empty
stored_value-hit key v stored = rw (text_eq_refl key, find_by)

merge_pairs-cons :
    (p : Text × Text) (stored ps : Pairs)
    → All (λ q. text_eq p.0 q.0 ≡ false) ps
    → merge_pairs (p ∷ stored) (blank ps) ≡ merge_pairs stored (blank ps)
unfolding merge_pairs blank
merge_pairs-cons p stored [] a = refl
merge_pairs-cons p stored (q ∷ ps) (n, a) =
    rw (stored_value-miss p stored q.0 n)
      (ap (λ r. (q.0, stored_value stored q.0) ∷ r) (merge_pairs-cons p stored ps a))

merge_pairs-blank : (ps : Pairs) → DistinctNames ps → merge_pairs ps (blank ps) ≡ ps
unfolding merge_pairs blank
merge_pairs-blank [] d = refl
merge_pairs-blank ((k, v) ∷ ps) (n, d) =
    rw (stored_value-hit k v ps)
      (ap (λ r. (k, v) ∷ r) (merge_pairs-cons (k, v) ps ps n ∙ merge_pairs-blank ps d))

merge_transport-redacted :
    (t : McpTransportConfig)
    → DistinctNames (pairs_of t)
    → merge_transport t (redacted_transport t).0 ≡ t
unfolding merge_transport redacted_transport env_of headers_of
merge_transport-redacted (stdio command args env) d =
    ap (stdio command args) (merge_pairs-blank env d)
merge_transport-redacted (streamable_http url headers) d =
    ap (streamable_http url) (merge_pairs-blank headers d)

-- If no two names of its environment or headers are the same, saving a redacted copy of a
-- configuration changes nothing in it, once its flag says whether it has a secret.
pub merge_secrets-redacted :
    (config : McpServerConfig)
    → DistinctNames (pairs_of config.transport)
    → config.has_secret ≡ has_secrets config.transport
    → merge_secrets config (redacted config) ≡ config
unfolding merge_secrets redacted
merge_secrets-redacted config d h =
    let e = merge_transport-redacted config.transport d in rw (e, h) refl

redacted_transport-Bare :
    (t : McpTransportConfig)
    → (any_value (pairs_of (redacted_transport t).0) ≡ false)
      × (map (λ p. p.0) (pairs_of (redacted_transport t).0) ≡ map (λ p. p.0) (pairs_of t))
      × ((redacted_transport t).1 ≡ has_secrets t)
unfolding redacted_transport has_secrets
redacted_transport-Bare (stdio command args env) = (any_value-blank env, names-blank env, refl)
redacted_transport-Bare (streamable_http url headers) =
    (any_value-blank headers, names-blank headers, refl)

-- A redacted copy names the same variables or headers, has no value of any, and its flag says whether
-- there was one.
pub redacted-Bare :
    (config : McpServerConfig)
    → (any_value (pairs_of (redacted config).transport) ≡ false)
      × (map (λ p. p.0) (pairs_of (redacted config).transport)
          ≡ map (λ p. p.0) (pairs_of config.transport))
      × ((redacted config).has_secret ≡ has_secrets config.transport)
unfolding redacted
redacted-Bare config = redacted_transport-Bare config.transport
