-- ===== src/Tools/Math.antt =====
-- shirita-core/src/tools.rs: `eval_math`, a parser by recursive descent that computes as it reads, and
-- its handler. The arithmetic of f64 is a parameter.
pub mod Fuel
use shirita.Prelude.{
  ℕ, zero, suc, ◌+◌, ◌*◌, Option, none, some, Bool, true, false, not, ◌&&◌, ◌||◌, List, [], ◌∷◌,
  ltb, leb, ◌==◌, if◌then◌else◌, length, is_empty,
}
use shirita.Text.{Text, codes, byte_len}
use shirita.Json.{Value, number, float, object, field, end}
use shirita.Tools.{
  ToolHandler, ToolCall, ToolExecution, invalid_arguments, invalid_expression, no_control, reject,
  accept,
}
use shirita.Tools.Builtin.{str_field}

-- `f64`: its operations, `str::parse`, and the bits of a value.
pub record Floats : Type 1 where
  pub F : Type 0
  pub add : F → F → F
  pub sub : F → F → F
  pub mul : F → F → F
  pub div : F → F → F
  pub rem : F → F → F
  pub powf : F → F → F
  pub neg : F → F
  pub is_zero : F → Bool
  pub is_finite : F → Bool
  pub parse : Text → Option F
  pub bits : F → ℕ

abbrev pub max_math_expression_bytes : ℕ
max_math_expression_bytes = 4096

abbrev pub max_math_parse_depth : ℕ
max_math_parse_depth = 64

-- `u8::is_ascii_whitespace`
abbrev pub is_space : ℕ → Bool
is_space c = c == 32 || (c == 9 || (c == 10 || (c == 12 || c == 13)))

unfoldable pub ws : Text → Text
ws [] = []
ws (c ∷ s) = elim (is_space c) [ true ↦ ws s | false ↦ c ∷ s ]

-- `eat`: the text after the character, or none where another one stands there.
unfoldable pub eat : ℕ → Text → Option Text
eat c s = elim (ws s) [ [] ↦ none | d ∷ rest ↦ if d == c then some rest else none ]

abbrev pub is_digit : ℕ → Bool
is_digit c = (leb b'0' c && leb c b'9') || c == b'.'

-- The digits that the text begins with, and the rest.
unfoldable pub digits : Text → Text × Text
digits [] = ([], [])
digits (c ∷ s) = let (d, rest) = digits s in if is_digit c then (c ∷ d, rest) else ([], c ∷ s)

module _ (fl : Floats) where
  -- What is to be read: a whole expression, term, power, unary or atom, or the rest of one whose value
  -- so far is given.
  pub data Goal : Type 0 where
    expr term power unary atom : Goal
    expr_rest term_rest power_rest : fl.F → Goal

  -- The value, with the text behind it; `depth` counts the open brackets and is as it was.
  pub data Parse : Type 0 where
    no_value out_of_fuel : Parse
    value : fl.F → Text → Parse

  abbrev pub then_parse : Parse → (fl.F → Text → Parse) → Parse
  then_parse no_value k = no_value
  then_parse out_of_fuel k = out_of_fuel
  then_parse (value v s) k = k v s

  -- The number that the text begins with.
  abbrev pub number_at : Text × Text → Parse
  number_at ([], rest) = no_value
  number_at (d ∷ ds, rest) = elim (fl.parse (d ∷ ds)) [ none ↦ no_value | some v ↦ value v rest ]

  abbrev pub close : fl.F → Text → Parse
  close v s = elim (eat b')' s) [ none ↦ no_value | some rest ↦ value v rest ]

  unfoldable pub parse : ℕ → Goal → ℕ → Text → Parse
  parse zero goal depth s = out_of_fuel
  parse (suc k) expr depth s =
      then_parse (parse k term depth s) (λ v rest. parse k (expr_rest v) depth rest)
  parse (suc k) (expr_rest v) depth s = elim (eat b'+' s) [
    | some rest ↦
        then_parse (parse k term depth rest) (λ x r. parse k (expr_rest (fl.add v x)) depth r)
    | none ↦ elim (eat b'-' s) [
      | some rest ↦
          then_parse (parse k term depth rest) (λ x r. parse k (expr_rest (fl.sub v x)) depth r)
      | none ↦ value v (ws s)
    ]
  ]
  parse (suc k) term depth s =
      then_parse (parse k power depth s) (λ v rest. parse k (term_rest v) depth rest)
  parse (suc k) (term_rest v) depth s = elim (eat b'*' s) [
    | some rest ↦
        then_parse (parse k power depth rest) (λ x r. parse k (term_rest (fl.mul v x)) depth r)
    | none ↦ elim (eat b'/' s) [
      | some rest ↦ then_parse (parse k power depth rest) (λ x r. elim (fl.is_zero x) [
        | true ↦ no_value
        | false ↦ parse k (term_rest (fl.div v x)) depth r
      ])
      | none ↦ elim (eat b'%' s) [
        | some rest ↦ then_parse (parse k power depth rest) (λ x r. elim (fl.is_zero x) [
          | true ↦ no_value
          | false ↦ parse k (term_rest (fl.rem v x)) depth r
        ])
        | none ↦ value v (ws s)
      ]
    ]
  ]
  parse (suc k) power depth s =
      then_parse (parse k unary depth s) (λ v rest. parse k (power_rest v) depth rest)
  parse (suc k) (power_rest v) depth s = elim (eat b'^' s) [
    | some rest ↦ then_parse (parse k power depth rest) (λ x r. value (fl.powf v x) r)
    | none ↦ value v (ws s)
  ]
  parse (suc k) unary depth s = elim (eat b'+' s) [
    | some rest ↦ parse k unary depth rest
    | none ↦ elim (eat b'-' s) [
      | some rest ↦ then_parse (parse k unary depth rest) (λ x r. value (fl.neg x) r)
      | none ↦ parse k atom depth s
    ]
  ]
  parse (suc k) atom depth s = elim (eat b'(' s) [
    | some rest ↦ elim (ltb max_math_parse_depth (suc depth)) [
      | true ↦ no_value
      | false ↦ then_parse (parse k expr (suc depth) rest) close
    ]
    | none ↦ number_at (digits (ws s))
  ]

  -- Eight steps for each character are enough: an expression is read in at most five before one is
  -- taken.
  abbrev pub math_fuel : Text → ℕ
  math_fuel s = 8 * length s + 8

  abbrev pub finish_math : Parse → Option fl.F
  finish_math (value v s) = if is_empty (ws s) && fl.is_finite v then some v else none
  finish_math _ = none

  unfoldable pub eval_math : Text → Option fl.F
  eval_math input =
      if ltb max_math_expression_bytes (byte_len input)
      then none
      else finish_math (parse (math_fuel input) expr 0 input)

  abbrev pub answer : ToolCall → Option fl.F → ToolExecution
  answer call none = reject call invalid_expression
  answer call (some v) =
      if fl.is_finite v
      then accept call (object (field (codes "value") (number (float (fl.bits v))) end)) no_control
      else reject call invalid_expression

  -- `MathTool`
  unfoldable pub math_tool : ToolHandler
  math_tool moment call = elim (str_field call.arguments (codes "expression")) [
    | none ↦ reject call invalid_arguments
    | some e ↦
        if leb (byte_len e) max_math_expression_bytes
        then answer call (eval_math e)
        else reject call invalid_arguments
  ]
