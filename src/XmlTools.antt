-- ===== src/XmlTools.antt =====
-- shirita-core/src/xml_tools.rs: the text protocol for models without native tool calls.
pub mod Round
use shirita.Prelude.{
  ℕ, zero, suc, ◌+◌, Option, none, some, ◌||◌, List, [], ◌∷◌, ◌++◌, ltb, ◌==◌, if◌then◌else◌,
  length, take, drop, any, map,
}
use shirita.Text.{Text, codes, byte_len, text_eq, find, trim, replace_all, decimal}
use shirita.Json.{Value, Serde, text, object, array, field, end, to_items, null}
use shirita.Tools.{ToolCall, ToolResult, ToolSpec, ToolResultStatus, ErrorCode, xml}

abbrev pub max_xml_round_bytes : ℕ
max_xml_round_bytes = 262144

pub data XmlError : Type 0 where
  xml_round_too_large unterminated_tool_call missing_tool_name : XmlError
  duplicate_tool_call_id invalid_tool_arguments malformed_tool_call : XmlError
  out_of_fuel : XmlError

pub record XmlRound : Type 0 where
  pub calls : List ToolCall
  pub working_text : Text

pub data XmlResult : Type 0 where
  parsed : XmlRound → XmlResult
  failed : XmlError → XmlResult

abbrev pub open_tag : Text
open_tag = codes "<tool_call"

abbrev pub close_tag : Text
close_tag = codes "</tool_call>"

unfoldable pub unescape_attr : Text → Text
unescape_attr s = replace_all (codes "&amp;") (codes "&") (
    replace_all (codes "&gt;") (codes ">") (
      replace_all (codes "&lt;") (codes "<")
        (replace_all (codes "&apos;") (codes "'") (replace_all (codes "&quot;") (b'"' ∷ []) s))))

-- The value behind the quote that opens it.
unfoldable pub quoted : Text → Option Text
unfolding unescape_attr
quoted [] = none
quoted (quote ∷ tail) =
    if quote == b'"' || quote == 39
    then elim (find (quote ∷ []) tail) [ none ↦ none | some n ↦ some (unescape_attr (take n tail)) ]
    else none

unfoldable pub attr : Text → Text → Option Text
unfolding quoted
attr attrs key = elim (find (key ++ codes "=") attrs) [
  | none ↦ none
  | some at ↦ quoted (drop (at + (length key + 1)) attrs)
]

abbrev or_text : Option Text → Text → Text
or_text none d = d
or_text (some s) d = s

-- One round of the `while let` of `parse_xml_tool_round`.
pub data XmlStep : Type 0 where
  stop : XmlError → XmlStep
  no_more : XmlStep
  one : ToolCall → Text → Text → XmlStep

-- The block of `name` and `id`, with its body up to place `n` of `body`.
unfoldable pub xml_body : Serde → List ToolCall → Text → Text → ℕ → Text → Text → XmlStep
xml_body serde calls before body n name id =
    if any (λ c. text_eq c.id id) calls
    then stop duplicate_tool_call_id
    else elim (serde.from_str (trim (take n body))) [
      | none ↦ stop invalid_tool_arguments
      | some arguments ↦
          one (record { id = id; name = name; arguments = arguments; transport = xml }) before
            (drop (n + length close_tag) body)
    ]

-- The block whose opening tag is `attrs`, with its body at the front of `body`.
unfoldable pub xml_call : Serde → List ToolCall → Text → Text → Text → XmlStep
xml_call serde calls before attrs body = elim (find close_tag body) [
  | none ↦ stop unterminated_tool_call
  | some n ↦ elim (attr attrs (codes "name")) [
    | none ↦ stop missing_tool_name
    | some name ↦
        xml_body serde calls before body n name
          (or_text (attr attrs (codes "id")) (codes "xml_" ++ decimal (length calls + 1)))
  ]
]

unfoldable pub xml_step : Serde → List ToolCall → Text → XmlStep
xml_step serde calls rest = elim (find open_tag rest) [
  | none ↦ no_more
  | some start ↦
      let after = drop start rest in
      elim (find (codes ">") after) [
        | none ↦ stop unterminated_tool_call
        | some open_end ↦
            xml_call serde calls (take start rest) (drop (length open_tag) (take open_end after))
              (drop (open_end + 1) after)
      ]
]

-- What follows the loop.
unfoldable pub xml_finish : List ToolCall → Text → Text → XmlResult
xml_finish calls working rest = elim (find open_tag rest) [
  | some _ ↦ failed malformed_tool_call
  | none ↦ elim (find close_tag rest) [
    | some _ ↦ failed malformed_tool_call
    | none ↦ parsed (record { calls = calls; working_text = trim (working ++ rest) })
  ]
]

unfoldable pub xml_loop : Serde → ℕ → List ToolCall → Text → Text → XmlResult
xml_loop serde zero calls working rest = failed out_of_fuel
xml_loop serde (suc fuel) calls working rest = elim (xml_step serde calls rest) [
  | stop e ↦ failed e
  | no_more ↦ xml_finish calls working rest
  | one call before rest' ↦ xml_loop serde fuel (calls ++ call ∷ []) (working ++ before) rest'
]

-- `parse_xml_tool_round`: each round takes at least a closing tag off the rest.
unfoldable pub parse_xml_tool_round : Serde → Text → XmlResult
parse_xml_tool_round serde s =
    if ltb max_xml_round_bytes (byte_len s)
    then failed xml_round_too_large
    else xml_loop serde (suc (length s)) [] [] s

unfoldable pub safe_json : Serde → Value → Text
safe_json serde v = replace_all (codes ">") (codes "\\u003e") (
    replace_all (codes "<") (codes "\\u003c")
      (replace_all (codes "&") (codes "\\u0026") (or_text (serde.to_string v) (codes "null"))))

unfoldable pub render_xml_tool_call : Serde → ToolCall → Text
unfolding safe_json
render_xml_tool_call serde call =
    codes "<tool_call id="
    ++ (safe_json serde (text call.id)
        ++ (codes " name="
            ++ (safe_json serde (text call.name)
                ++ (codes ">\n" ++ (safe_json serde call.arguments ++ codes "\n</tool_call>")))))

-- The strings of the error codes and states, as serde prints them.
unfoldable pub code_text : ErrorCode → Text
code_text ErrorCode.arguments_too_large = codes "arguments_too_large"
code_text ErrorCode.unknown_tool = codes "unknown_tool"
code_text ErrorCode.disabled_tool = codes "disabled_tool"
code_text ErrorCode.result_too_large = codes "result_too_large"
code_text ErrorCode.invalid_arguments = codes "invalid_arguments"
code_text ErrorCode.response_too_large = codes "response_too_large"
code_text ErrorCode.empty_patch = codes "empty_patch"
code_text ErrorCode.too_many_operations = codes "too_many_operations"
code_text ErrorCode.invalid_range = codes "invalid_range"
code_text ErrorCode.invalid_expression = codes "invalid_expression"
code_text ErrorCode.finish_skipped = codes "finish_skipped"
code_text ErrorCode.timeout = codes "timeout"
code_text ErrorCode.stale_revision = codes "stale_revision"
code_text ErrorCode.search_not_found = codes "search_not_found"
code_text ErrorCode.search_not_unique = codes "search_not_unique"
code_text ErrorCode.empty_response = codes "empty_response"
code_text (ErrorCode.other s) = s

abbrev status_text : ToolResultStatus → Text
status_text ToolResultStatus.ok = codes "ok"
status_text ToolResultStatus.rejected = codes "rejected"
status_text ToolResultStatus.failed = codes "failed"

abbrev code_value : Option ErrorCode → Value
code_value none = null
code_value (some c) = text (code_text c)

unfoldable pub render_xml_tool_result : Serde → ToolResult → Text
unfolding safe_json
render_xml_tool_result serde result =
    codes "<tool_result id="
    ++ (safe_json serde (text result.call_id)
        ++ (codes " name="
            ++ (safe_json serde (text result.name)
                ++ (codes ">\n"
                    ++ (safe_json serde (
                          object (
                            field (codes "status") (text (status_text result.status)) (
                              field (codes "output") result.output
                                (field (codes "error_code") (code_value result.error_code) end))))
                        ++ codes "\n</tool_result>")))))

abbrev spec_value : ToolSpec → Value
spec_value s = object (
    field (codes "description") (text s.description)
      (field (codes "input_schema") s.input_schema (field (codes "name") (text s.name) end)))

-- The instructions above the list of tools.
protocol_text : Text
protocol_text =
    codes
      "Tool transport: XML fallback.\nTo call a tool, emit a complete block with JSON arguments:\n"
    ++ (codes
          "<tool_call id=\"unique_call_id\" name=\"registered.tool.name\">\n{\"argument\":\"value\"}\n</tool_call>\n"
        ++ (codes
              "The current user-visible response is supplied each round as a SHIRITA_RESPONSE_WORKSPACE block with a revision. Ordinary text does not change it.\n"
            ++ (codes "Tool results become visible only in the next round.\n"
                ++ (codes
                      "Use shirita.response.replace to create/replace the response and shirita.response.patch to revise it.\n"
                    ++ (codes
                          "Finish the run with shirita.run.finish: call it with no arguments to commit the current response workspace, or with a \"response\" argument for a one-shot response. Do not invent tool names or place final user-visible prose outside shirita.run.finish. Calls after finish are ignored.\n"
                        ++ codes "Registered tools:\n")))))

unfoldable pub xml_protocol_prompt : Serde → List ToolSpec → Text
unfolding protocol_text safe_json
xml_protocol_prompt serde specs =
    protocol_text ++ safe_json serde (array (to_items (map spec_value specs)))
