-- ===== src/Chrono/Turn.antt =====
-- src/extension/ChronoController.cpp: one turn of the loop of "Chrono Controller". A turn goes to its wait;
-- what follows a wait is a step of its own, since the wait gives up the mutex.
use nuclear.Base.{◌+◌, ◌*◌, ◌/◌, List, [], ◌∷◌, Bool, if◌then◌else◌, not}
use nuclear.Base.Int.{ℤ, pos, pos_part, neg_part, sub_ℕ, ltb_ℤ, ◌-ℤ◌}
use nuclear.Chrono.Tasks.{ChronoTask, call, pop_heap, push_heap, pop_back}
use nuclear.Chrono.Handlers.{Controller}

-- What a turn does: it finds that it is to end, it waits for a task, calls one, waits while the clock
-- is paused, waits or sleeps for a time, or spins.
pub data Turn : Type 0 where
  ended : Turn
  idle : Turn
  called : ChronoTask → Turn
  paused : Turn
  waited : ℤ → Turn
  slept : ℤ → Turn
  spun : Turn

-- What a turn reads of the clock: the time, the cast of a duration over the factor, and whether the
-- factor is zero.
pub record Readings : Type 0 where
  pub start : ℤ
  pub over_rtf : ℤ → ℤ
  pub is_paused : Bool

unfoldable pub is_due : ℤ → ChronoTask → Bool
is_due start t = not (ltb_ℤ start t.time)

-- The front is called, moved to the back, and put in again or taken out.
unfoldable pub call_front : ChronoTask → List ChronoTask → Controller → Controller
call_front t ts c =
    let popped = pop_heap ((call t).1 ∷ ts) in
    record c { tasks = if (call t).0 then push_heap popped else pop_back popped }

-- The ways to wait for a task that is not due.
unfoldable pub choose_wait : Bool → ℤ → Controller → Turn
choose_wait is_paused time_until_task c =
    if is_paused
    then paused
    else if ltb_ℤ c.cv_accuracy time_until_task
    then waited (time_until_task -ℤ c.cv_accuracy)
    else if ltb_ℤ c.ns_accuracy time_until_task
    then slept (time_until_task -ℤ c.ns_accuracy)
    else spun

unfoldable pub turn_at : Readings → List ChronoTask → Controller → Turn × Controller
turn_at r [] c = (idle, c)
turn_at r (t ∷ ts) c =
    if is_due r.start t
    then (called t, call_front t ts c)
    else (choose_wait r.is_paused (r.over_rtf (t.time -ℤ r.start)) c, c)

unfoldable pub turn : Readings → Controller → Turn × Controller
turn r c = if c.running then turn_at r c.tasks c else (ended, c)

-- `(accuracy * 99 + error) / 100`, rounded towards zero.
abbrev pub blend : ℤ → ℤ → ℤ
blend accuracy error =
    let sum =
      sub_ℕ (pos_part accuracy * 99 + pos_part error) (neg_part accuracy * 99 + neg_part error) in
    sub_ℕ (pos_part sum / 100) (neg_part sum / 100)

unfoldable pub update_accuracy : ℤ → ℤ → ℤ
update_accuracy accuracy error =
    if ltb_ℤ (pos 0) error
    then (if ltb_ℤ accuracy error then error else blend accuracy error)
    else accuracy

-- What follows `waited` and `slept`, for the target of the turn and the time when the wait ended.
unfoldable pub end_wait : ℤ → ℤ → Controller → Controller
end_wait target end_time c = record c {
  cv_accuracy = update_accuracy c.cv_accuracy (end_time -ℤ (target -ℤ c.cv_accuracy));
}

unfoldable pub end_sleep : ℤ → ℤ → Controller → Controller
end_sleep target end_time c = record c {
  ns_accuracy = update_accuracy c.ns_accuracy (end_time -ℤ (target -ℤ c.ns_accuracy));
}
