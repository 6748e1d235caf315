-- ===== src/Mcp/Policy.antt =====
-- shirita-core/src/mcp/mod.rs: the access that a policy grants, and the names of the servers' tools.
use shirita.Prelude.{
  ℕ, ◌+◌, ◌-◌, ◌/◌, ◌%◌, Option, none, some, Bool, ◌&&◌, ◌||◌, List, [], ◌∷◌, ◌++◌, ltb, leb, ◌==◌,
  if◌then◌else◌, ◌≡◌, refl,
}
use shirita.Text.{Text, codes, ascii_lower}
use shirita.Json.{Value}
use shirita.Assoc.{Assoc, lookup, insert_all, first_of, lookup-insert_all}

pub data McpAccess : Type 0 where
  allow ask : McpAccess

pub record McpPolicy : Type 0 where
  pub tools : Assoc McpAccess

-- `McpPolicy::default`
abbrev pub no_policy : McpPolicy
no_policy = record { tools = [] }

abbrev pub or_default : Option McpPolicy → McpPolicy
or_default none = no_policy
or_default (some policy) = policy

-- What serde makes of a stored policy is a parameter.
abbrev pub ReadPolicy : Type 0
ReadPolicy = Value → Option McpPolicy

unfoldable pub read_some : ReadPolicy → Option Value → Option McpPolicy
read_some read none = none
read_some read (some v) = read v

unfoldable pub from_settings_map : ReadPolicy → Assoc Value → McpPolicy
from_settings_map read settings = or_default (read_some read (lookup (codes "mcp.policy") settings))

-- The loop over the override is `insert_all`.
unfoldable pub effective : Option McpPolicy → Option McpPolicy → McpPolicy
effective global none = record { tools = (or_default global).tools }
effective global (some conversation) = record {
  tools = insert_all conversation.tools (or_default global).tools;
}

unfoldable pub utf8_bytes : ℕ → List ℕ
utf8_bytes c =
    if ltb c 0x80
    then c ∷ []
    else if ltb c 0x800
    then (0xc0 + c / 64) ∷ (0x80 + c % 64) ∷ []
    else if ltb c 0x10000
    then (0xe0 + c / 4096) ∷ (0x80 + c / 64 % 64) ∷ (0x80 + c % 64) ∷ []
    else (0xf0 + c / 262144) ∷ (0x80 + c / 4096 % 64) ∷ (0x80 + c / 64 % 64) ∷ (0x80 + c % 64) ∷ []

abbrev pub hex_digit : ℕ → ℕ
hex_digit n = if ltb n 10 then b'0' + n else b'a' + (n - 10)

unfoldable pub hex : List ℕ → Text
hex [] = []
hex (b ∷ bs) = hex_digit (b / 16) ∷ hex_digit (b % 16) ∷ hex bs

abbrev pub kept_char : ℕ → Bool
kept_char c = (leb b'a' c && leb c b'z') || ((leb b'0' c && leb c b'9') || (c == b'_' || c == b'.'))

unfoldable pub encode_char : ℕ → Text
encode_char c =
    if kept_char c
    then c ∷ []
    else if leb b'A' c && leb c b'Z'
    then ascii_lower c ∷ []
    else b'_' ∷ (hex (utf8_bytes c) ++ b'_' ∷ [])

unfoldable pub encode_name_part : Text → Text
encode_name_part [] = []
encode_name_part (c ∷ s) = encode_char c ++ encode_name_part s

unfoldable pub mcp_tool_name : Text → Text → Text
mcp_tool_name server_id tool_name =
    codes "mcp." ++ (encode_name_part server_id ++ (codes "." ++ encode_name_part tool_name))

-- The access of the effective policy is the conversation's where it names the tool, and the global
-- one elsewhere.
pub lookup-effective :
    (global conversation : McpPolicy) (name : Text)
    → lookup name (effective (some global) (some conversation)).tools
      ≡ first_of (lookup name conversation.tools) (lookup name global.tools)
unfolding effective
lookup-effective global conversation name = lookup-insert_all name conversation.tools global.tools

encoded_name : mcp_tool_name (codes "My-é") (codes "a.b") ≡ codes "mcp.my_2d__c3a9_.a.b"
unfolding mcp_tool_name encode_name_part encode_char hex utf8_bytes
encoded_name = refl
