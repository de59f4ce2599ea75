-- ===== src/Chrono/Travel.antt =====
-- src/extension/ChronoController.cpp: what time travel does to the clock and the tasks.
use nuclear.Base.{◌≡◌, refl, List, [], ◌∷◌, arith, if◌then◌else◌, map}
use nuclear.Base.Int.{ℤ, pos, ltb_ℤ, ◌+ℤ◌, ◌-ℤ◌, ◌≤ℤ◌, eq_of_parts, int_laws, +ℤ_parts}
use nuclear.Chrono.Clock.{Clock, now, now-set_clock}
use nuclear.Chrono.Tasks.{ChronoTask, NoneBefore, FrontFirst}
use nuclear.Chrono.Handlers.{
  Action, TimeTravel, Controller, relative, absolute, nearest, travel_by, time_travel, least_time,
  shift_task,
}

-- The time that is left to each task.
unfoldable pub remaining : ℤ → List ChronoTask → List ℤ
remaining time [] = []
remaining time (t ∷ ts) = (t.time -ℤ time) ∷ remaining time ts

least_time_lem :
    (time : ℤ) (xs : List ChronoTask)
    → (least_time time xs ≤ℤ time) × NoneBefore (least_time time xs) xs
unfolding least_time
least_time_lem time [] = (omega arith, tt)
least_time_lem time (x ∷ xs) =
    let (l, n) = least_time_lem (if ltb_ℤ x.time time then x.time else time) xs in
    (ground (arith, l), (ground (arith, l), n))

least_time-greatest :
    (t time : ℤ) (xs : List ChronoTask) → t ≤ℤ time → NoneBefore t xs → t ≤ℤ least_time time xs
unfolding least_time
least_time-greatest t time [] h n = h
least_time-greatest t time (x ∷ xs) h n =
    least_time-greatest t (if ltb_ℤ x.time time then x.time else time) xs (ground (arith, h, n.0))
      n.1

remaining-shift :
    (target time : ℤ) (xs : List ChronoTask)
    → remaining target (map (shift_task (target -ℤ time)) xs) ≡ remaining time xs
unfolding remaining
remaining-shift target time [] = refl
remaining-shift target time (x ∷ xs) =
    let here : x.time +ℤ (target -ℤ time) -ℤ target ≡ x.time -ℤ time =
      eq_of_parts (x.time +ℤ (target -ℤ time) -ℤ target) (x.time -ℤ time) (omega int_laws) in
    rw (here, remaining-shift target time xs) refl

FrontFirst-shift :
    (adjustment : ℤ) (xs : List ChronoTask)
    → FrontFirst xs
    → FrontFirst (map (shift_task adjustment) xs)
FrontFirst-shift adjustment [] f = tt
FrontFirst-shift adjustment (x ∷ xs) f = none_before x.time xs f
  where
    none_before :
        (time : ℤ) (xs : List ChronoTask)
        → NoneBefore time xs
        → NoneBefore (time +ℤ adjustment) (map (shift_task adjustment) xs)
    none_before time [] n = tt
    none_before time (y ∷ ys) n = (
      omega (arith, n.0, +ℤ_parts time adjustment, +ℤ_parts y.time adjustment),
      none_before time ys n.1,
    )

module _ {R : Type 0} (scale : ℤ → R → ℤ) where
  pub FrontFirst-time_travel :
      (m : TimeTravel R) (base later : ℤ) (clock : Clock R) (c : Controller)
      → FrontFirst c.tasks
      → FrontFirst (time_travel scale m base later (clock, c)).1.tasks
  unfolding time_travel travel_by
  FrontFirst-time_travel m base later clock c f = by_action m.type
    where
      by_action : (a : Action) → FrontFirst (travel_by scale a m base later (clock, c)).1.tasks
      by_action relative = FrontFirst-shift (m.target -ℤ now scale base clock) c.tasks f
      by_action absolute = f
      by_action nearest = f

  module _ (scale_zero : (r : R) → scale (pos 0) r ≡ pos 0) where
    -- Relative time travel goes to its target, and leaves each task just the time it had left.
    pub relative-remaining :
        (target : ℤ) (rtf : R) (base later : ℤ) (clock : Clock R) (c : Controller)
        → let s =
            time_travel scale
              (record { target = target; rtf = rtf; type = relative })
              base
              later
              (clock, c) in
          (now scale later s.0 ≡ target)
          × (remaining (now scale later s.0) s.1.tasks ≡ remaining (now scale base clock) c.tasks)
    unfolding time_travel travel_by
    relative-remaining target rtf base later clock c =
        let (e, k) = now-set_clock scale scale_zero later target rtf clock in
        (e, rw e (remaining-shift target (now scale base clock) c.tasks))

    -- Time travel to the nearest time keeps the tasks, and goes to a time up to the target at which no
    -- task is overdue, and to the latest of these: none of them, `t`, is after it.
    pub nearest-latest :
        (target : ℤ) (rtf : R) (base later : ℤ) (clock : Clock R) (c : Controller) (t : ℤ)
        → t ≤ℤ target
        → NoneBefore t c.tasks
        → let s =
            time_travel scale
              (record { target = target; rtf = rtf; type = nearest })
              base
              later
              (clock, c) in
          (s.1 ≡ c)
          × (now scale later s.0 ≤ℤ target)
          × NoneBefore (now scale later s.0) c.tasks
          × (t ≤ℤ now scale later s.0)
    unfolding time_travel travel_by
    nearest-latest target rtf base later clock c t h n =
        let (e, k) = now-set_clock scale scale_zero later (least_time target c.tasks) rtf clock in
        let (below, none) = least_time_lem target c.tasks in
        (refl, rw e below, rw e none, rw e (least_time-greatest t target c.tasks h n))
