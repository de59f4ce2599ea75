-- ===== src/Reaction/Generator.antt =====
-- src/util/CallbackGenerator.hpp, and `get_task` of src/threading/Reaction.cpp. Whether the precondition holds and
-- whether all data exists are arguments; the events are those that are emitted, in order.
use nuclear.Base.{List, [], ◌∷◌, ◌++◌, Option, none, some, Bool, if◌then◌else◌}
use nuclear.Trace.State.{EventType, created, missing_data, blocked, started, finished}
use nuclear.Reaction.Tasks.{
  Reaction, Inline, ReactionTask, Statistics, Threads, new_task, delete_task,
}

-- What is emitted: an event of a task, or its statistics when it has finished.
pub data Emission : Type 0 where
  event : EventType → Statistics → Emission
  completed : Statistics → Bool → Emission

-- An event, if the task has statistics.
unfoldable pub emit_event : EventType → ReactionTask → List Emission
emit_event type task = elim task.statistics [ none ↦ [] | some stats ↦ event type stats ∷ [] ]

-- What the DSL decides for a task.
pub record Words : Type 0 where
  pub run_inline : Inline
  pub precondition : Option Reaction → Bool
  pub has_data : Bool

-- `operator()`.
unfoldable pub generate : Words → Bool → Threads → Option ReactionTask × Threads × List Emission
generate dsl request_inline w =
    let (task, made) = new_task dsl.run_inline request_inline w in
    if dsl.precondition made.reaction
    then (if dsl.has_data
        then (some task, made, emit_event created task)
        else (none, delete_task made, emit_event missing_data task))
    else (none, delete_task made, emit_event blocked task)

-- `get_task`.
unfoldable pub get_task :
    Words → Bool → Reaction → Threads → Option ReactionTask × Threads × List Emission
get_task dsl request_inline r w =
    if r.enabled
    then generate dsl request_inline (record w { reaction = some r })
    else (none, record w { reaction = some r }, [])

-- The statistics that are sent out at the end of a callback, with whether it threw.
unfoldable pub emit_completed : Bool → ReactionTask → List Emission
emit_completed threw task = elim task.statistics [
  | none ↦ []
  | some stats ↦ completed stats threw ∷ []
]

-- The callback of the task, for the emissions of the user's function and whether it throws.
unfoldable pub callback : List Emission → Bool → ReactionTask → List Emission
callback body threw task =
    emit_event started task ++ (body ++ (emit_event finished task ++ emit_completed threw task))
