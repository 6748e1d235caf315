-- ===== src/Mcp/Http.antt =====
-- shirita-core/src/mcp/http.rs: the checks of a URL and of a header's name, and the reading of a body
-- of server-sent events.
use shirita.Prelude.{
  ℕ, Option, none, some, Bool, true, false, not, ◌&&◌, ◌||◌, List, [], ◌∷◌, any, ltb, drop, ◌==◌,
  if◌then◌else◌, ◌+◌, ◌⊎◌, inl, inr,
}
use shirita.Text.{Text, codes, text_eq, byte_len, starts_with, find, to_ascii_lowercase, trim}
use shirita.Text.Lines.{lines}
use shirita.Json.{Value, Serde, get}

pub data UrlError : Type 0 where
  not_http embeds_credentials plain_http : UrlError

-- What stands before the first separator: `split(…).next()`, which is never missing.
unfoldable pub until : (ℕ → Bool) → Text → Text
until p [] = []
until p (c ∷ s) = let rest = until p s in if p c then [] else c ∷ rest

-- `split_once("://")` with the whole text where there is no match.
unfoldable pub without_scheme : Text → Text
without_scheme url = elim (find (codes "://") url) [ none ↦ url | some i ↦ drop (i + 3) url ]

unfoldable pub has_credentials : Text → Bool
has_credentials url = any (λ c. c == b'@') (until (λ c. c == b'/') (without_scheme url))

unfoldable pub host_of : Text → Text
host_of rest = until (λ c. c == b'/' || (c == b':' || c == b'?')) rest

unfoldable pub is_loopback : Text → Bool
is_loopback host =
    text_eq host (codes "localhost")
    || (starts_with (codes "127.") host
        || (text_eq host (codes "::1") || text_eq host (codes "[::1]")))

abbrev pub http_scheme : Text
http_scheme = codes "http://"

abbrev pub https_scheme : Text
https_scheme = codes "https://"

-- None is `Ok(())`.
unfoldable pub validate_url : Text → Option UrlError
validate_url url =
    if not (starts_with http_scheme url) && not (starts_with https_scheme url)
    then some not_http
    else if has_credentials url
    then some embeds_credentials
    else if starts_with http_scheme url && not (is_loopback (host_of (drop 7 url)))
    then some plain_http
    else none

pub data HeaderError : Type 0 where
  reserved_header header_name_too_long : HeaderError

abbrev pub denylist : List Text
denylist =
    codes "host"
    ∷ codes "content-length"
    ∷ codes "connection"
    ∷ codes "transfer-encoding"
    ∷ codes "cookie"
    ∷ codes "mcp-session-id"
    ∷ codes "proxy-authorization"
    ∷ codes "proxy-authenticate"
    ∷ codes "upgrade"
    ∷ codes "te"
    ∷ codes "trailer"
    ∷ codes "keep-alive"
    ∷ codes "expect"
    ∷ []

unfoldable pub validate_header_name : Text → Option HeaderError
validate_header_name name =
    let lower = to_ascii_lowercase name in
    if any (λ d. text_eq d lower) denylist
    then some reserved_header
    else if ltb 256 (byte_len lower)
    then some header_name_too_long
    else none

pub data SseError : Type 0 where
  sse_not_json no_message : SseError

unfoldable pub strip_data : Text → Option Text
strip_data line = if starts_with (codes "data:") line then some (drop 5 line) else none

unfoldable pub is_message : Value → Bool
is_message value = elim (get value (codes "jsonrpc")) [ none ↦ false | some _ ↦ true ]

-- What a payload says: whether the loop goes on, and what it returns otherwise.
unfoldable pub read_payload : Serde → Text → Option (SseError ⊎ Value)
read_payload serde payload =
    if text_eq payload (codes "[DONE]") then none else elim (serde.from_str payload) [
      | none ↦ some (inl sse_not_json)
      | some value ↦ if is_message value then some (inr value) else none
    ]

unfoldable pub read_line : Serde → Text → Option (SseError ⊎ Value)
read_line serde line = elim (strip_data (trim line)) [
  | none ↦ none
  | some payload ↦ read_payload serde (trim payload)
]

unfoldable pub parse_sse_lines : Serde → List Text → SseError ⊎ Value
parse_sse_lines serde [] = inl no_message
parse_sse_lines serde (line ∷ rest) = elim (read_line serde line) [
  | none ↦ parse_sse_lines serde rest
  | some outcome ↦ outcome
]

unfoldable pub parse_sse : Serde → Text → SseError ⊎ Value
parse_sse serde body = parse_sse_lines serde (lines body)
