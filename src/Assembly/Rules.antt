-- ===== src/Assembly/Rules.antt =====
-- shirita-core/src/assembly.rs: the rules of regular expressions that change a text, and the variables
-- that they capture from a reply. The engine is a parameter.
use shirita.Prelude.{
  ℕ, ◌+◌, Option, none, some, Bool, true, false, not, ◌&&◌, ◌||◌, List, [], ◌∷◌, ◌++◌, ◌==◌, any,
  all, keep, is_empty, if◌then◌else◌, ◌≡◌, refl,
}
use shirita.Text.{Text, codes, text_eq}
use shirita.Json.{Value, str_at, array_at, bool_at, or_nothing, or_false, as_str}
use shirita.Nodes.{Definition}
use shirita.Variables.{Update, set}

-- A compiled pattern replaces all its matches in a text; of its first match it yields the groups that
-- took part, by their number.
pub record Regex : Type 0 where
  pub replace_all : Text → Text → Text
  pub captures : Text → Option (ℕ → Option Text)

-- None where a pattern does not compile.
abbrev pub Engine : Type 0
Engine = Text → Option Regex

-- The text before the last slash and the text behind it.
unfoldable pub rsplit_slash : Text → Option (Text × Text)
rsplit_slash [] = none
rsplit_slash (c ∷ s) = elim (rsplit_slash s) [
  | some (body, flags) ↦ some (c ∷ body, flags)
  | none ↦ if c == b'/' then some ([], s) else none
]

abbrev pub known_flag : ℕ → Bool
known_flag c =
    c == b'i' || c == b's' || c == b'm' || c == b'x' || c == b'g' || c == b'u' || c == b'y'

abbrev pub inline_flag : ℕ → Bool
inline_flag c = c == b'i' || c == b's' || c == b'm' || c == b'x'

unfoldable pub with_flags : Text → Text → Text → Text
with_flags pattern body flags =
    if not (all known_flag flags)
    then pattern
    else if is_empty (keep inline_flag flags)
    then body
    else codes "(?" ++ (keep inline_flag flags ++ (codes ")" ++ body))

-- Behind the first slash; a pattern without a second one is not a literal.
unfoldable pub literal : Text → Option (Text × Text) → Text
literal pattern none = pattern
literal pattern (some (body, flags)) = with_flags pattern body flags

unfoldable pub normalize_js_regex_literal : Text → Text
normalize_js_regex_literal [] = []
normalize_js_regex_literal (c ∷ s) = if c == b'/' then literal (c ∷ s) (rsplit_slash s) else c ∷ s

pub data RegexTarget : Type 0 where
  ai_output user_input : RegexTarget

pub data RegexPhase : Type 0 where
  display prompt : RegexPhase

unfoldable pub target_key : RegexTarget → Text
target_key ai_output = codes "ai_output"
target_key user_input = codes "user_input"

abbrev or_display : Option Text → Text
or_display none = codes "display"
or_display (some s) = s

unfoldable pub phase_ok : RegexPhase → Text → Bool
phase_ok display scope = text_eq scope (codes "display") || text_eq scope (codes "both")
phase_ok prompt scope = text_eq scope (codes "prompt") || text_eq scope (codes "both")

unfoldable pub is_target : Text → Value → Bool
is_target key v = elim (as_str v) [ none ↦ false | some s ↦ text_eq s key ]

unfoldable pub target_ok : Text → Option (List Value) → Bool
target_ok key none = true
target_ok key (some ts) = is_empty ts || any (is_target key) ts

unfoldable pub is_disabled : Definition → Bool
is_disabled rule = or_false (bool_at rule.meta (codes "disabled"))

unfoldable pub applies : RegexTarget → RegexPhase → Definition → Bool
applies target phase rule =
    not (is_disabled rule)
    && (phase_ok phase (or_display (str_at rule.meta (codes "scope")))
        && target_ok (target_key target) (array_at rule.meta (codes "targets")))

unfoldable pub compile : Engine → Option Text → Option Regex
compile engine none = none
compile engine (some p) = engine (normalize_js_regex_literal p)

unfoldable pub replace_by : Definition → Option Text → Text → Option Regex → Option Text
replace_by rule ran out none = ran
replace_by rule ran out (some re) =
    some (re.replace_all out (or_nothing (str_at rule.meta (codes "replacement"))))

abbrev pub current : Text → Option Text → Text
current input none = input
current input (some s) = s

-- The text so far, none as long as no rule ran.
unfoldable pub apply_rule :
    Engine → RegexTarget → RegexPhase → Text → Option Text → Definition → Option Text
apply_rule engine target phase input ran rule =
    if applies target phase rule
    then replace_by rule ran (current input ran)
        (compile engine (str_at rule.meta (codes "pattern")))
    else ran

unfoldable pub apply_rules :
    Engine → RegexTarget → RegexPhase → Text → Option Text → List Definition → Option Text
apply_rules engine target phase input ran [] = ran
apply_rules engine target phase input ran (rule ∷ rules) =
    apply_rules engine target phase input (apply_rule engine target phase input ran rule) rules

unfoldable pub apply_regex_rules_for :
    Engine → Text → List Definition → RegexTarget → RegexPhase → Option Text
apply_regex_rules_for engine input rules target phase =
    apply_rules engine target phase input none rules

unfoldable pub apply_regex_rules : Engine → Text → List Definition → Option Text
apply_regex_rules engine input rules = apply_regex_rules_for engine input rules ai_output display

unfoldable pub captured : Option Text → Option Text → List Update
captured (some name) (some m) = record { action = set; key = name; value = some m } ∷ []
captured _ _ = []

-- The groups count from 1; a slot that is no text takes a number, but no variable.
unfoldable pub capture_groups : (ℕ → Option Text) → ℕ → List Value → List Update
capture_groups groups i [] = []
capture_groups groups i (v ∷ vs) =
    captured (as_str v) (groups (i + 1)) ++ capture_groups groups (i + 1) vs

unfoldable pub captures_of : List Value → Option (ℕ → Option Text) → List Update
captures_of names none = []
captures_of names (some groups) = capture_groups groups 0 names

unfoldable pub captures_by : List Value → Text → Option Regex → List Update
captures_by names input none = []
captures_by names input (some re) = captures_of names (re.captures input)

unfoldable pub rule_captures : Engine → Text → Definition → Option (List Value) → List Update
rule_captures engine input rule none = []
rule_captures engine input rule (some names) =
    captures_by names input (compile engine (str_at rule.meta (codes "pattern")))

unfoldable pub capture_panel_updates : Engine → Text → List Definition → List Update
capture_panel_updates engine input [] = []
capture_panel_updates engine input (rule ∷ rules) =
    (if is_disabled rule
      then []
      else rule_captures engine input rule (array_at rule.meta (codes "capture_vars")))
    ++ capture_panel_updates engine input rules

flags_inline : normalize_js_regex_literal (codes "/<u>(.*)<\\/u>/gsi") ≡ codes "(?si)<u>(.*)<\\/u>"
unfolding normalize_js_regex_literal rsplit_slash literal with_flags
flags_inline = refl
