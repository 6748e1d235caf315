-- ===== src/Budget.antt =====
-- shirita-core/src/budget.rs: the pruning of a history that is over the context window. The token
-- counter is a parameter, and the sums are taken not to pass the range of a usize.
pub mod Window
use shirita.Prelude.{
  ℕ, zero, suc, ◌+◌, ◌-◌, Bool, true, false, List, [], ◌∷◌, ◌++◌, leb, ◌||◌, if◌then◌else◌, length,
  take, drop,
}
use shirita.Text.{Text}
use shirita.Model.{ChatMessage, Role, system}

-- `dyn TokenCounter`
abbrev pub Counter : Type 0
Counter = Text → ℕ

abbrev pub tok : Counter → ChatMessage → ℕ
tok counter m = counter m.content

abbrev pub total : Counter → List ChatMessage → ℕ
total counter [] = 0
total counter (m ∷ ms) = tok counter m + total counter ms

abbrev pub is_system : Role → Bool
is_system system = true
is_system _ = false

-- `mid_start`; the source has a message at place 0 here.
abbrev pub lead : List ChatMessage → ℕ
lead [] = 0
lead (m ∷ ms) = if is_system m.role then 1 else 0

-- The `keep` flags of the messages of the middle segment.
unfoldable pub flags : Counter → ℕ → ℕ → List ChatMessage → List Bool
flags counter window running [] = []
flags counter window running (m ∷ ms) =
    if leb running window
    then true ∷ flags counter window running ms
    else false ∷ flags counter window (running - tok counter m) ms

-- `dropped`
abbrev pub count_false : List Bool → ℕ
count_false [] = 0
count_false (true ∷ fs) = count_false fs
count_false (false ∷ fs) = suc (count_false fs)

-- `zip(keep).filter_map(..)`
abbrev pub pick : List ChatMessage → List Bool → List ChatMessage
pick [] fs = []
pick (m ∷ ms) [] = []
pick (m ∷ ms) (true ∷ fs) = m ∷ pick ms fs
pick (m ∷ ms) (false ∷ fs) = pick ms fs

-- The messages without the last, and the last on its own.
abbrev pub but_last : List ChatMessage → List ChatMessage
but_last ms = take (length ms - 1) ms

unfoldable pub trim_history : List ChatMessage → ℕ → Counter → List ChatMessage × ℕ
trim_history messages window counter =
    let running = total counter messages in
    if leb running window || leb (length messages) 2
    then (messages, 0)
    else let start = lead messages in
      let middle = drop start (but_last messages) in
      let kept = flags counter window running middle in
      (
        take start messages ++ (pick middle kept ++ drop (length messages - 1) messages),
        count_false kept,
      )
