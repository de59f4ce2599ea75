-- ===== src/Io/Tests.antt =====
-- Runs of the controller for files.
use nuclear.Base.{ℕ, ◌≡◌, [], ◌∷◌, Bool, true}
use nuclear.Io.Events.{Events, no_events, just, pollin}
use nuclear.Io.Tasks.{Task, fire_event, notify_watch}
use nuclear.Io.Controller.{handle_all}
use nuclear.Io.Recorded.{all_hold, all_hold-handle_all, Outcome, fire_event-Outcome}

abbrev always_gives : ℕ → Events → Bool
always_gives id events = true

abbrev a_reader : Task
a_reader = record {
  fd = 7;
  listening_events = just pollin;
  waiting_events = no_events;
  processing_events = no_events;
  reaction = 2;
}

fire_event-Outcome_example :
    Outcome pollin
      (record a_reader { waiting_events = just pollin })
      (fire_event always_gives
        (record a_reader { waiting_events = just pollin })
        (notify_watch 3 ∷ []))
fire_event-Outcome_example =
    fire_event-Outcome always_gives (record a_reader { waiting_events = just pollin })
      (notify_watch 3 ∷ []) pollin

all_hold-handle_all_example :
    all_hold pollin 7
      (just pollin)
      (a_reader ∷ [])
      (handle_all always_gives 7 (just pollin) true (a_reader ∷ []) (notify_watch 3 ∷ [])).0
    ≡ true
all_hold-handle_all_example =
    all_hold-handle_all always_gives 7 (just pollin) true (a_reader ∷ []) (notify_watch 3 ∷ [])
      pollin
