-- ===== src/Mcp/Replies.antt =====
-- The bounds of a result of a server's tool in shirita-core/src/mcp/mod.rs.
use shirita.Prelude.{
  ◌+◌, ◌≤◌, min, ◌^◌, ◌-◌, ◌≡◌, refl, Option, none, some, List, [], ◌∷◌, ◌++◌, ltb, leb, ◌⊎◌, inl,
  inr, is_empty, arith, Bool-cases,
}
use shirita.Text.{Text, codes, byte_len, text_eq}
use shirita.Json.{str_at, array_at, bool_at, or_nothing, or_false, or_no_items, Value}
use shirita.Mcp.Session.{
  McpSession, McpCallResult, McpError, request, call_tool, read_result, read_blocks, push_block,
  push_text, with_summary, summary_of, Content, max_result_text_bytes,
}

byte_len-append : (s t : Text) → byte_len (s ++ t) ≡ byte_len s + byte_len t
unfolding byte_len
byte_len-append [] t = omega arith
byte_len-append (c ∷ s) t = omega (arith, byte_len-append s t)

abbrev Held : Option Content → Type 0
Held none = Unit
Held (some (text, unsupported)) = byte_len text ≤ max_result_text_bytes

push_text-Held : (acc : Content) (o : Option Text) → Held (some acc) → Held (push_text acc o)
unfolding push_text
push_text-Held acc none h = h
push_text-Held acc (some t) h =
    elim (Bool-cases (ltb max_result_text_bytes (min (byte_len acc.0 + byte_len t) (2 ^ 64 - 1)))) [
      | inl e ↦ rw e tt
      | inr e ↦ rw e (let a = byte_len-append acc.0 t in ground arith)
    ]

push_block-Held :
    (acc : Content) (block : Value) (o : Option Text)
    → Held (some acc)
    → Held (push_block acc block o)
unfolding push_block
push_block-Held acc block none h = h
push_block-Held acc block (some ty) h = elim (Bool-cases (text_eq ty (codes "text"))) [
  | inl e ↦ rw e (push_text-Held acc _ h)
  | inr e ↦ rw e h
]

read_blocks-Held :
    (acc : Content) (blocks : List Value) → Held (some acc) → Held (read_blocks acc blocks)
unfolding read_blocks
read_blocks-Held acc [] h = h
read_blocks-Held acc (block ∷ rest) h =
    go (push_block acc block (str_at block (codes "type")))
      (push_block-Held acc block (str_at block (codes "type")) h)
      (λ more. read_blocks-Held more rest)
  where
    go :
        (o : Option Content)
        → Held o
        → ((more : Content) → Held (some more) → Held (read_blocks more rest))
        → Held (elim o as (λ _. Option Content) [ none ↦ none | some more ↦ read_blocks more rest ])
    go none p f = tt
    go (some more) p f = f more p

-- A text of the server within the limit, with the list of what was left out if that has room; or
-- that list alone.
abbrev pub BoundedText : Text → Type 0
BoundedText text =
    (byte_len text ≤ max_result_text_bytes + 1)
    ⊎ ((unsupported : List Text) × (text ≡ summary_of unsupported))

newline_len : (s t : Text) → byte_len (s ++ (codes "\n" ++ t)) ≡ byte_len s + byte_len t + 1
unfolding byte_len
newline_len s t = omega (arith, byte_len-append s (codes "\n" ++ t))

with_summary-BoundedText :
    (content : Content) → Held (some content) → BoundedText (with_summary content)
unfolding with_summary
with_summary-BoundedText (text, unsupported) h = elim (Bool-cases (is_empty unsupported)) [
  | inl e ↦ rw e (inl (omega (arith, h)))
  | inr e ↦ elim (Bool-cases (is_empty text)) [
    | inl d ↦ rw (e, d) (inr (unsupported, refl))
    | inr d ↦
        elim (Bool-cases (
          leb (min (byte_len text + byte_len (summary_of unsupported)) (2 ^ 64 - 1))
            max_result_text_bytes)) [
              | inl c ↦
                  rw (e, d, c)
                    (inl (let n = newline_len text (summary_of unsupported) in ground arith))
              | inr c ↦ rw (e, d, c) (inl (omega (arith, h)))
            ]
  ]
]

abbrev pub BoundedReply : McpError ⊎ McpCallResult → Type 0
BoundedReply (inl e) = Unit
BoundedReply (inr r) = BoundedText r.text

read_result-BoundedReply : (res : Value) → BoundedReply (read_result res)
unfolding read_result
read_result-BoundedReply res = go _ (
    read_blocks-Held ([], []) (or_no_items (array_at res (codes "content")))
      (unfold byte_len in omega arith))
  where
    go :
        (o : Option Content)
        → Held o
        → BoundedReply (elim o as (λ _. McpError ⊎ McpCallResult) [
          | none ↦ inl shirita.Mcp.Session.text_too_large
          | some content ↦ inr (record {
            is_error = or_false (bool_at res (codes "isError"));
            text = with_summary content;
            structured = shirita.Json.get res (codes "structuredContent");
          })
        ])
    go none h = tt
    go (some content) h = with_summary-BoundedText content h

-- The text of a result is at most 65537 bytes long, one more than the limit, unless the reply had no
-- text and the result is the list of the types of what was left out, which has no bound.
pub call_tool-BoundedReply :
    (session : McpSession) (name : Text) (arguments : Value)
    → BoundedReply (call_tool session name arguments).0
unfolding call_tool
call_tool-BoundedReply session name arguments = go (request session (codes "tools/call") _).0
  where
    go :
        (reply : Option Value)
        → BoundedReply (elim reply as (λ _. McpError ⊎ McpCallResult) [
          | none ↦ inl shirita.Mcp.Session.request_failed
          | some res ↦ read_result res
        ])
    go none = tt
    go (some res) = read_result-BoundedReply res
