-- ===== src/Chrono/Handlers.antt =====
-- src/extension/ChronoController.cpp and src/message/TimeTravel.hpp: the state of the controller, and its
-- handlers, each of which runs under the mutex.
use nuclear.Base.{ℕ, ◌==◌, List, [], ◌∷◌, ◌++◌, Option, none, some, Bool, false, if◌then◌else◌, map}
use nuclear.Base.Int.{ℤ, ltb_ℤ, ◌+ℤ◌, ◌-ℤ◌}
use nuclear.Chrono.Clock.{Clock, set_clock, now}
use nuclear.Chrono.Tasks.{ChronoTask, make_heap, push_heap}

-- `Action` and `TimeTravel`.
pub data Action : Type 0 where
  relative : Action
  absolute : Action
  nearest : Action

pub record TimeTravel (R : Type 0) : Type 0 where
  pub target : ℤ
  pub rtf : R
  pub type : Action

-- `ChronoController`.
pub record Controller : Type 0 where
  pub tasks : List ChronoTask
  pub running : Bool
  pub cv_accuracy : ℤ
  pub ns_accuracy : ℤ

-- "Add Chrono task".
unfoldable pub add_task : ChronoTask → Controller → Controller
add_task t c = if c.running then record c { tasks = push_heap (c.tasks ++ t ∷ []) } else c

-- The tasks less the first with the id, or `none` when there is no such task.
unfoldable pub erase_task : ℕ → List ChronoTask → Option (List ChronoTask)
erase_task id [] = none
erase_task id (x ∷ xs) =
    let rest = erase_task id xs in
    if x.id == id then some xs else elim rest [ none ↦ none | some ys ↦ some (x ∷ ys) ]

-- "Unbind Chrono Task".
unfoldable pub unbind_task : ℕ → Controller → Controller
unbind_task id c = elim (erase_task id c.tasks) [
  | none ↦ c
  | some rest ↦ record c { tasks = make_heap rest }
]

-- "Shutdown Chrono Controller".
unfoldable pub shutdown : Controller → Controller
shutdown c = record c { running = false }

-- The least of a time and the times of the tasks: `std::min` with `std::min_element`.
unfoldable pub least_time : ℤ → List ChronoTask → ℤ
least_time time [] = time
least_time time (x ∷ xs) = least_time (if ltb_ℤ x.time time then x.time else time) xs

abbrev pub shift_task : ℤ → ChronoTask → ChronoTask
shift_task adjustment t = record t { time = t.time +ℤ adjustment }

module _ {R : Type 0} (scale : ℤ → R → ℤ) where
  -- "Time Travel", at a reading of the base clock for `now`, and a later one for `set_clock`.
  unfoldable pub travel_by :
      Action → TimeTravel R → ℤ → ℤ → Clock R × Controller → Clock R × Controller
  travel_by absolute m base later (clock, c) = (set_clock later m.target m.rtf clock, c)
  travel_by relative m base later (clock, c) = (
    set_clock later m.target m.rtf clock,
    record c { tasks = map (shift_task (m.target -ℤ now scale base clock)) c.tasks },
  )
  travel_by nearest m base later (clock, c) =
      (set_clock later (least_time m.target c.tasks) m.rtf clock, c)

  unfoldable pub time_travel : TimeTravel R → ℤ → ℤ → Clock R × Controller → Clock R × Controller
  time_travel m base later s = travel_by m.type m base later s
