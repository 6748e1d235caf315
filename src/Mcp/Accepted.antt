-- ===== src/Mcp/Accepted.antt =====
-- Saving over a stored configuration of shirita-core/src/mcp/mod.rs keeps it valid.
use shirita.Prelude.{
  ◌≡◌, refl, ap, none, false, List, [], ◌∷◌, ◌++◌, map, any, is_empty, if◌then◌else◌, find_by,
  arith, Bool-cases, inl, inr, length,
}
use shirita.Text.{Text, text_eq, byte_len}
use shirita.Mcp.Http.{validate_header_name}
use shirita.Mcp.{
  Pairs, McpTransportConfig, stdio, streamable_http, McpServerConfig, or_empty, stored_value,
  merge_pairs, env_of, headers_of, merge_transport, merge_secrets, validate, validate_transport,
  validate_stdio, validate_http, validate_headers, header_error, too_large,
}

abbrev Small : List Text → Type 0
Small items = any too_large items ≡ false

abbrev values : Pairs → List Text
values ps = map (λ p. p.1) ps

abbrev names : Pairs → List Text
names ps = map (λ p. p.0) ps

Small-append : (xs ys : List Text) → Small xs → Small ys → Small (xs ++ ys)
Small-append [] ys p q = q
Small-append (x ∷ xs) ys p q = let r = Small-append xs ys (ground arith) q in ground arith

Small-left : (xs ys : List Text) → Small (xs ++ ys) → Small xs
Small-left [] ys p = refl
Small-left (x ∷ xs) ys p = let r = Small-left xs ys (ground arith) in ground arith

Small-right : (xs ys : List Text) → Small (xs ++ ys) → Small ys
Small-right [] ys p = p
Small-right (x ∷ xs) ys p = Small-right xs ys (ground arith)

length-merge_pairs :
    (stored incoming : Pairs) → length (merge_pairs stored incoming) ≡ length incoming
unfolding merge_pairs
length-merge_pairs stored [] = refl
length-merge_pairs stored (p ∷ ps) = omega (arith, length-merge_pairs stored ps)

names-merge_pairs : (stored incoming : Pairs) → names (merge_pairs stored incoming) ≡ names incoming
unfolding merge_pairs
names-merge_pairs stored [] = refl
names-merge_pairs stored (p ∷ ps) = elim (Bool-cases (is_empty p.1)) [
  | inl e ↦ rw e (ap (λ ns. p.0 ∷ ns) (names-merge_pairs stored ps))
  | inr e ↦ rw e (ap (λ ns. p.0 ∷ ns) (names-merge_pairs stored ps))
]

stored_value-Small :
    (stored : Pairs) (key : Text)
    → Small (values stored)
    → too_large (stored_value stored key) ≡ false
unfolding stored_value or_empty too_large byte_len
stored_value-Small [] key p = refl
stored_value-Small (q ∷ stored) key p = elim (Bool-cases (text_eq q.0 key)) [
  | inl e ↦ rw (e, find_by) (ground arith)
  | inr e ↦ rw (e, find_by) (stored_value-Small stored key (ground arith))
]

-- The value that stands in the merged list for one of the new list.
merged_value-Small :
    (stored : Pairs) (p : Text × Text)
    → Small (values stored)
    → too_large p.1 ≡ false
    → too_large (if is_empty p.1 then (p.0, stored_value stored p.0) else p).1 ≡ false
merged_value-Small stored p s n = elim (Bool-cases (is_empty p.1)) [
  | inl e ↦ rw e (stored_value-Small stored p.0 s)
  | inr e ↦ rw e n
]

values-merge_pairs :
    (stored incoming : Pairs)
    → Small (values stored)
    → Small (values incoming)
    → Small (values (merge_pairs stored incoming))
unfolding merge_pairs
values-merge_pairs stored [] s n = refl
values-merge_pairs stored (p ∷ ps) s n =
    rw (merged_value-Small stored p s (ground arith))
      (values-merge_pairs stored ps s (ground arith))

validate_stdio-Small :
    (command : Text) (args : List Text) (env : Pairs)
    → validate_stdio command args env ≡ none
    → Small (args ++ (names env ++ values env))
unfolding validate_stdio
validate_stdio-Small command args env h = ground arith

validate_headers-cons :
    (name value : Text) (hs : Pairs)
    → validate_headers ((name, value) ∷ hs) ≡ none
    → (validate_header_name name ≡ none) × (too_large value ≡ false) × (validate_headers hs ≡ none)
unfolding validate_headers header_error
validate_headers-cons name value hs h = ground arith

cons-validate_headers :
    (name value : Text) (hs : Pairs)
    → validate_header_name name ≡ none
    → too_large value ≡ false
    → validate_headers hs ≡ none
    → validate_headers ((name, value) ∷ hs) ≡ none
unfolding validate_headers header_error
cons-validate_headers name value hs n v h = ground arith

validate_headers-Small : (hs : Pairs) → validate_headers hs ≡ none → Small (values hs)
validate_headers-Small [] h = refl
validate_headers-Small ((name, value) ∷ hs) h =
    let (_, v, r) = validate_headers-cons name value hs h in rw v (validate_headers-Small hs r)

-- The merged headers have the names of the new ones.
validate_headers-merge_pairs :
    (stored incoming : Pairs)
    → Small (values stored)
    → validate_headers incoming ≡ none
    → validate_headers (merge_pairs stored incoming) ≡ none
unfolding merge_pairs
validate_headers-merge_pairs stored [] s h = h
validate_headers-merge_pairs stored ((name, value) ∷ ps) s h =
    let (n, v, r) = validate_headers-cons name value ps h in
    let rest = validate_headers-merge_pairs stored ps s r in
    elim (Bool-cases (is_empty value)) [
      | inl e ↦ rw e (cons-validate_headers name _ _ n (stored_value-Small stored name s) rest)
      | inr e ↦ rw e (cons-validate_headers name value _ n v rest)
    ]

env_of-Small : (t : McpTransportConfig) → validate_transport t ≡ none → Small (values (env_of t))
unfolding validate_transport env_of
env_of-Small (stdio command args env) h =
    Small-right (names env) (values env)
      (Small-right args _ (validate_stdio-Small command args env h))
env_of-Small (streamable_http url headers) h = refl

validate_http-headers :
    (url : Text) (headers : Pairs)
    → validate_http url headers ≡ none
    → validate_headers headers ≡ none
unfolding validate_http
validate_http-headers url headers h = ground arith

headers_of-Small :
    (t : McpTransportConfig) → validate_transport t ≡ none → Small (values (headers_of t))
unfolding validate_transport headers_of
headers_of-Small (stdio command args env) h = refl
headers_of-Small (streamable_http url headers) h =
    validate_headers-Small headers (validate_http-headers url headers h)

validate_stdio-merge_pairs :
    (stored : Pairs) (command : Text) (args : List Text) (env : Pairs)
    → Small (values stored)
    → validate_stdio command args env ≡ none
    → validate_stdio command args (merge_pairs stored env) ≡ none
validate_stdio-merge_pairs stored command args env s h =
    let all_small = validate_stdio-Small command args env h in
    let rest = Small-right args _ all_small in
    let merged : Small
        (args ++ (names (merge_pairs stored env) ++ values (merge_pairs stored env))) =
      Small-append args _ (Small-left args _ all_small) (
        rw (names-merge_pairs stored env) (
          Small-append (names env) _ (Small-left (names env) _ rest)
            (values-merge_pairs stored env s (Small-right (names env) _ rest)))) in
    let n = length-merge_pairs stored env in unfold validate_stdio in ground arith

validate_http-merge_pairs :
    (stored : Pairs) (url : Text) (headers : Pairs)
    → Small (values stored)
    → validate_http url headers ≡ none
    → validate_http url (merge_pairs stored headers) ≡ none
validate_http-merge_pairs stored url headers s h =
    let r = validate_headers-merge_pairs stored headers s (validate_http-headers url headers h) in
    let n = length-merge_pairs stored headers in unfold validate_http in ground arith

validate_transport-merge :
    (stored incoming : McpTransportConfig)
    → validate_transport stored ≡ none
    → validate_transport incoming ≡ none
    → validate_transport (merge_transport stored incoming) ≡ none
unfolding merge_transport validate_transport
validate_transport-merge stored (stdio command args env) s h =
    validate_stdio-merge_pairs (env_of stored) command args env (env_of-Small stored s) h
validate_transport-merge stored (streamable_http url headers) s h =
    validate_http-merge_pairs (headers_of stored) url headers (headers_of-Small stored s) h

transport-validate :
    (config : McpServerConfig) → validate config ≡ none → validate_transport config.transport ≡ none
unfolding validate
transport-validate config h = ground arith

-- A valid configuration merged over a valid stored one is valid, whichever values it takes from there.
pub validate-merge_secrets :
    (stored incoming : McpServerConfig)
    → validate stored ≡ none
    → validate incoming ≡ none
    → validate (merge_secrets stored incoming) ≡ none
validate-merge_secrets stored incoming s h =
    let t =
      validate_transport-merge stored.transport incoming.transport (transport-validate stored s)
        (transport-validate incoming h) in
    unfold merge_secrets validate in ground arith
