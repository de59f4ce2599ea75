-- ===== src/Chrono/Tests.antt =====
-- Runs of the clock and of the controller.
use nuclear.Base.{ℕ, ◌≡◌, refl, [], ◌∷◌, Bool, true, false, arith, not, ◌&&◌, ◌==◌}
use nuclear.Base.Int.{ℤ, pos, ◌≤ℤ◌}
use nuclear.Chrono.Clock.{Clock, set_clock, now, rtf_of, now-set_clock}
use nuclear.Chrono.Tasks.{ChronoTask, NoneBefore, FrontFirst, count, call}
use nuclear.Chrono.Handlers.{Controller, relative, nearest, time_travel}
use nuclear.Chrono.Travel.{remaining, relative-remaining, nearest-latest}
use nuclear.Chrono.Turn.{Readings, is_due}
use nuclear.Chrono.Due.{turns, called_tasks, turns_lem, renews}

-- A clock that runs, or is paused.
abbrev at_rate : ℤ → Bool → ℤ
at_rate d true = d
at_rate d false = pos 0

at_rate_zero : (b : Bool) → at_rate (pos 0) b ≡ pos 0
at_rate_zero true = refl
at_rate_zero false = refl

abbrev new_clock : Clock Bool
new_clock = record {
  data_at = λ i. record { base_from = pos 100; epoch = pos 100; rtf = true };
  active = 0;
}

abbrev once_at : ℕ → ℕ → ChronoTask
once_at id time = record { task = λ t. (false, t); time = pos time; id = id }

abbrev controller : Controller
controller = record {
  tasks = once_at 1 150 ∷ once_at 2 170 ∷ [];
  running = true;
  cv_accuracy = pos 5;
  ns_accuracy = pos 2;
}

abbrev controller_front : FrontFirst controller.tasks
controller_front = (omega arith, tt)

abbrev at_160 : Readings
at_160 = record { start = pos 160; over_rtf = λ d. d; is_paused = false }

now-set_clock_example :
    (now at_rate (pos 130) (set_clock (pos 130) (pos 7) false new_clock) ≡ pos 7)
    × (rtf_of (set_clock (pos 130) (pos 7) false new_clock) ≡ false)
now-set_clock_example = now-set_clock at_rate at_rate_zero (pos 130) (pos 7) false new_clock

relative-remaining_example :
    let s =
      time_travel at_rate
        (record { target = pos 900; rtf = true; type = relative })
        (pos 110)
        (pos 112)
        (new_clock, controller) in
    (now at_rate (pos 112) s.0 ≡ pos 900)
    × (remaining (now at_rate (pos 112) s.0) s.1.tasks
        ≡ remaining (now at_rate (pos 110) new_clock) controller.tasks)
relative-remaining_example =
    relative-remaining at_rate at_rate_zero (pos 900) true (pos 110) (pos 112) new_clock controller

nearest-latest_example :
    let s =
      time_travel at_rate
        (record { target = pos 900; rtf = true; type = nearest })
        (pos 110)
        (pos 112)
        (new_clock, controller) in
    (s.1 ≡ controller)
    × (now at_rate (pos 112) s.0 ≤ℤ pos 900)
    × NoneBefore (now at_rate (pos 112) s.0) controller.tasks
    × (pos 140 ≤ℤ now at_rate (pos 112) s.0)
nearest-latest_example =
    nearest-latest at_rate at_rate_zero (pos 900) true (pos 110) (pos 112) new_clock controller
      (pos 140) (omega arith) (omega arith, (omega arith, tt))

turns_lem_example :
    (count (λ t. t.id == 2) (called_tasks (turns 1 at_160 controller).0)
      ≡ count (λ t. is_due (pos 160) t && (t.id == 2)) controller.tasks)
    × (count (is_due (pos 160)) (turns 1 at_160 controller).1.tasks ≡ 0)
    × (count (λ t. not (is_due (pos 160) t) && (t.id == 2)) (turns 1 at_160 controller).1.tasks
        ≡ count (λ t. not (is_due (pos 160) t) && (t.id == 2)) controller.tasks)
unfolding count renews call is_due
turns_lem_example = turns_lem 1 at_160 controller (λ t. t.id == 2) refl controller_front refl refl
