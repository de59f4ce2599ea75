-- ===== src/Chrono/Events.antt =====
-- src/extension/ChronoController.cpp: what every handler keeps, in any order.
use nuclear.Base.{
  ℕ, List, [], ◌∷◌, ◌++◌, Bool, true, false, if◌then◌else◌, Bool-cases, Option-cases, inl, inr,
}
use nuclear.Base.Int.{ℤ}
use nuclear.Chrono.Clock.{Clock}
use nuclear.Chrono.Tasks.{
  ChronoTask, call, make_heap, pop_heap, FrontFirst, FrontFirst-make_heap, pop_back-snoc,
}
use nuclear.Chrono.Handlers.{
  Controller, TimeTravel, add_task, erase_task, unbind_task, shutdown, time_travel,
}
use nuclear.Chrono.Travel.{FrontFirst-time_travel}
use nuclear.Chrono.Turn.{Turn, Readings, call_front, turn_at, turn, is_due, end_wait, end_sleep}

-- What happens under the mutex, with what is read of the clocks.
pub data Event (R : Type 0) : Type 0 where
  add : ChronoTask → Event R
  unbind : ℕ → Event R
  stop : Event R
  travel : TimeTravel R → ℤ → ℤ → Event R
  round : Readings → Event R
  woken : ℤ → ℤ → Event R
  rested : ℤ → ℤ → Event R

FrontFirst-unbind :
    (id : ℕ) (c : Controller) → FrontFirst c.tasks → FrontFirst (unbind_task id c).tasks
unfolding unbind_task
FrontFirst-unbind id c f = elim (Option-cases (erase_task id c.tasks)) [
  | inl e ↦ rw (e, unbind_task) f
  | inr (rest, e) ↦ rw (e, unbind_task) (FrontFirst-make_heap rest)
]

FrontFirst-add :
    (t : ChronoTask) (c : Controller) → FrontFirst c.tasks → FrontFirst (add_task t c).tasks
unfolding add_task
FrontFirst-add t c f = elim (Bool-cases c.running) [
  | inl e ↦ rw e (FrontFirst-make_heap (c.tasks ++ t ∷ []))
  | inr e ↦ rw e f
]

FrontFirst-call_front :
    (t : ChronoTask) (ts : List ChronoTask) (c : Controller) → FrontFirst (call_front t ts c).tasks
unfolding call_front pop_heap
FrontFirst-call_front t ts c = elim (Bool-cases (call t).0) [
  | inl e ↦ rw e (FrontFirst-make_heap (make_heap ts ++ (call t).1 ∷ []))
  | inr e ↦ rw (e, pop_back-snoc (make_heap ts) (call t).1) (FrontFirst-make_heap ts)
]

keeps_if : {A : Type 0} (P : A → Type 0) (b : Bool) (x y : A) → P x → P y → P (if b then x else y)
keeps_if P true x y h k = h
keeps_if P false x y h k = k

FrontFirst-turn_at :
    (r : Readings) (xs : List ChronoTask) (c : Controller)
    → FrontFirst c.tasks
    → FrontFirst (turn_at r xs c).1.tasks
unfolding turn_at
FrontFirst-turn_at r [] c f = f
FrontFirst-turn_at r (t ∷ ts) c f =
    keeps_if (λ (s : Turn × Controller). FrontFirst s.1.tasks) (is_due r.start t) _ _
      (FrontFirst-call_front t ts c) f

FrontFirst-turn :
    (r : Readings) (c : Controller) → FrontFirst c.tasks → FrontFirst (turn r c).1.tasks
unfolding turn
FrontFirst-turn r c f =
    keeps_if (λ (s : Turn × Controller). FrontFirst s.1.tasks) c.running _ _
      (FrontFirst-turn_at r c.tasks c f) f

module _ {R : Type 0} (scale : ℤ → R → ℤ) where
  unfoldable pub step : Event R → Clock R × Controller → Clock R × Controller
  step (add t) (clock, c) = (clock, add_task t c)
  step (unbind id) (clock, c) = (clock, unbind_task id c)
  step stop (clock, c) = (clock, shutdown c)
  step (travel m base later) s = time_travel scale m base later s
  step (round r) (clock, c) = (clock, (turn r c).1)
  step (woken target time) (clock, c) = (clock, end_wait target time c)
  step (rested target time) (clock, c) = (clock, end_sleep target time c)

  unfoldable pub steps : List (Event R) → Clock R × Controller → Clock R × Controller
  steps [] s = s
  steps (e ∷ es) s = steps es (step e s)

  step-FrontFirst :
      (e : Event R) (clock : Clock R) (c : Controller)
      → FrontFirst c.tasks
      → FrontFirst (step e (clock, c)).1.tasks
  unfolding step shutdown end_wait end_sleep
  step-FrontFirst (add t) clock c f = FrontFirst-add t c f
  step-FrontFirst (unbind id) clock c f = FrontFirst-unbind id c f
  step-FrontFirst stop clock c f = f
  step-FrontFirst (travel m base later) clock c f =
      FrontFirst-time_travel scale m base later clock c f
  step-FrontFirst (round r) clock c f = FrontFirst-turn r c f
  step-FrontFirst (woken target time) clock c f = f
  step-FrontFirst (rested target time) clock c f = f

  -- Whatever happens, and in whatever order, no task is sooner than the one at the front.
  pub steps-FrontFirst :
      (es : List (Event R)) (clock : Clock R) (c : Controller)
      → FrontFirst c.tasks
      → FrontFirst (steps es (clock, c)).1.tasks
  unfolding steps
  steps-FrontFirst [] clock c f = f
  steps-FrontFirst (e ∷ es) clock c f =
      let next = step e (clock, c) in
      steps-FrontFirst es next.0 next.1 (step-FrontFirst e clock c f)
