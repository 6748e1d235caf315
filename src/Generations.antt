-- ===== src/Generations.antt =====
-- shirita-web/src/generations.rs: the registry of the generation in flight of each session. A handle
-- is known by a number; the state keeps which of them were aborted and stopped, the newest first.
pub mod History
pub mod Superseded
use shirita.Prelude.{
  ℕ, ◌+◌, ◌%◌, ◌^◌, Option, none, some, Bool, true, false, List, [], ◌∷◌, ◌==◌, if◌then◌else◌,
}
use shirita.Text.{Text}
use shirita.Assoc
use shirita.Assoc.{lookup, insert}

pub record Slot : Type 0 where
  pub gen_id : ℕ
  pub handle : ℕ
  pub stop : ℕ

-- The map, the counter `NEXT_GEN`, and what became of the handles.
pub record Generations : Type 0 where
  pub slots : Assoc.Assoc Slot
  pub next_gen : ℕ
  pub aborted : List ℕ
  pub stopped : List ℕ

unfoldable pub new : Generations
new = record { slots = []; next_gen = 0; aborted = []; stopped = [] }

-- The hard abort and the stop token of a slot that leaves the map.
unfoldable pub cut_off : Option Slot → Generations → Generations
cut_off none g = g
cut_off (some s) g = record g { aborted = s.handle ∷ g.aborted; stopped = s.stop ∷ g.stopped }

-- The counter is a u64 that wraps. The source draws the number before it takes the lock of the map; here
-- both are one step, so that two calls whose draws and locks cross are outside the model.
unfoldable pub replace : Generations → Text → ℕ → ℕ → ℕ × Generations
replace g session_id handle stop =
    let gen_id = g.next_gen in
    let taken = record g {
      slots = insert session_id (record { gen_id = gen_id; handle = handle; stop = stop }) g.slots;
      next_gen = (g.next_gen + 1) % 2 ^ 64;
    } in
    (gen_id, cut_off (lookup session_id g.slots) taken)

unfoldable pub is_current : Option Slot → ℕ → Bool
is_current none gen_id = false
is_current (some s) gen_id = s.gen_id == gen_id

unfoldable pub finish : Generations → Text → ℕ → Generations
finish g session_id gen_id =
    if is_current (lookup session_id g.slots) gen_id
    then record g { slots = Assoc.remove session_id g.slots }
    else g

unfoldable pub remove : Generations → Text → Generations
remove g session_id =
    cut_off (lookup session_id g.slots) (record g { slots = Assoc.remove session_id g.slots })

unfoldable pub stop_slot : Option Slot → Generations → Bool × Generations
stop_slot none g = (false, g)
stop_slot (some s) g = (true, record g { stopped = s.stop ∷ g.stopped })

unfoldable pub stop : Generations → Text → Bool × Generations
stop g session_id = stop_slot (lookup session_id g.slots) g
