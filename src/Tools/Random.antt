-- ===== src/Tools/Random.antt =====
-- shirita-core/src/tools.rs: the handlers of the random tools. What `rand::thread_rng` draws is a
-- parameter, with the range that `gen_range` draws from.
use shirita.Prelude.{
  ℕ, suc, zero, ◌+◌, ◌-◌, ◌<◌, ◌^◌, Option, none, some, not, ◌&&◌, List, [], ◌∷◌, ltb, leb,
  if◌then◌else◌, length, is_empty,
}
use shirita.Text.{Text, codes}
use shirita.Json.{Value, number, pos_int, neg_int, object, field, end, null, get}
use shirita.Tools.{
  ToolHandler, Moment, ToolCall, ToolExecution, invalid_arguments, invalid_range, no_control,
  reject, accept,
}
use shirita.Tools.Builtin.{array_field}

abbrev pub max_random_items : ℕ
max_random_items = 1000

abbrev pub max_random_integer_span : ℕ
max_random_integer_span = 1000000000

-- An i64: `negsuc n` is -(n + 1).
pub data ℤ : Type 0 where
  pos negsuc : ℕ → ℤ

abbrev pub i64_max : ℕ
i64_max = 2 ^ 63 - 1

-- `Value::as_i64`
abbrev pub as_i64 : Value → Option ℤ
as_i64 (number (pos_int n)) = if leb n i64_max then some (pos n) else none
as_i64 (number (neg_int n)) = some (negsuc n)
as_i64 _ = none

unfoldable pub i64_field : Value → Text → Option ℤ
i64_field v k = elim (get v k) [ none ↦ none | some x ↦ as_i64 x ]

abbrev pub int : ℤ → Value
int (pos n) = number (pos_int n)
int (negsuc n) = number (neg_int n)

-- `max - min`, or none where `min > max`.
unfoldable pub span : ℤ → ℤ → Option ℕ
span (pos a) (pos b) = if ltb b a then none else some (b - a)
span (pos a) (negsuc b) = none
span (negsuc a) (pos b) = some (suc (a + b))
span (negsuc a) (negsuc b) = if ltb a b then none else some (a - b)

-- `gen_range(min..=max)` and `gen_range(0..n)` at a moment.
pub record Dice : Type 0 where
  pub number_in : Moment → ℤ → ℤ → ℤ
  pub index_below : Moment → ℕ → ℕ
  pub index_below_lt : (moment : Moment) (n : ℕ) → 0 < n → index_below moment n < n

abbrev pub draw_number : Dice → Moment → ToolCall → ℤ → ℤ → Option ℕ → ToolExecution
draw_number dice moment call low high none = reject call invalid_range
draw_number dice moment call low high (some width) =
    if ltb max_random_integer_span width
    then reject call invalid_range
    else accept call (object (field (codes "value") (int (dice.number_in moment low high)) end))
        no_control

-- `RandomNumberTool`
unfoldable pub random_number_tool : Dice → ToolHandler
random_number_tool dice moment call = elim (i64_field call.arguments (codes "min")) [
  | none ↦ reject call invalid_arguments
  | some low ↦ elim (i64_field call.arguments (codes "max")) [
    | none ↦ reject call invalid_arguments
    | some high ↦ draw_number dice moment call low high (span low high)
  ]
]

-- `items[index]`. Past the end the source panics; `index_below_lt` keeps the draw from there.
abbrev pub item_at : List Value → ℕ → Value
item_at [] i = null
item_at (v ∷ vs) zero = v
item_at (v ∷ vs) (suc i) = item_at vs i

abbrev pub choose : ToolCall → List Value → ℕ → ToolExecution
choose call items index =
    accept call
      (object (
        field (codes "index") (number (pos_int index))
          (field (codes "value") (item_at items index) end)))
      no_control

-- `RandomChooseTool`
unfoldable pub random_choose_tool : Dice → ToolHandler
random_choose_tool dice moment call = elim (array_field call.arguments (codes "items")) [
  | none ↦ reject call invalid_arguments
  | some items ↦
      if not (is_empty items) && leb (length items) max_random_items
      then choose call items (dice.index_below moment (length items))
      else reject call invalid_arguments
]
