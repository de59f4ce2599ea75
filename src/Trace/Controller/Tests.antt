-- ===== src/Trace/Controller/Tests.antt =====
-- Runs of the trace controller.
use nuclear.Base.{ℕ, ◌≡◌, refl, List, [], ◌∷◌, none, some, true, false, length}
use nuclear.Trace.Packets.{Packet}
use nuclear.Trace.Interner.{find}
use nuclear.Trace.State.{
  Moment, Statistics, TraceController, new_controller, finished, missing_data, warn, same_string,
  same_pointer, reaction_name,
}
use nuclear.Trace.Controller.{begin_trace}
use nuclear.Trace.Controller.Defined.{any, defines_iid, defines_track, WellDefined}
use nuclear.Trace.Controller.Traces.{Input, event, log, encode_all, first_trace-WellDefined}
use nuclear.Trace.Controller.Restart.{Seen, begin_trace_undefined}

abbrev strip_nothing : List ℕ → List ℕ
strip_nothing s = s

abbrev on_thread : ℕ → Moment
on_thread id = record {
  thread = record { thread_id = id; pool = none };
  real_time = 900;
  thread_time = 40;
}

abbrev a_task : Statistics
a_task = record {
  identifiers = some (record { address = 16; name = []; reactor = 65 ∷ []; dsl = 66 ∷ [] });
  task_id = 3;
  created_at = on_thread 7;
  started_at = on_thread 8;
  finished_at = on_thread 8;
}

abbrev some_inputs : List Input
some_inputs =
    event finished a_task
    ∷ log a_task (record { level = warn; message = 72 ∷ 105 ∷ []; statistics = none })
    ∷ event missing_data a_task
    ∷ []

first_trace-WellDefined_example :
    (file : List Packet) × ((encode_all strip_nothing some_inputs
        (begin_trace strip_nothing true a_task new_controller)).file
      ≡ some file)
    × WellDefined file
first_trace-WellDefined_example = first_trace-WellDefined strip_nothing true a_task some_inputs

-- A controller after a trace with the task.
abbrev after_trace : TraceController
after_trace = record new_controller {
  next_uuid = 6;
  process_uuid = 1;
  thread_uuids = (8, 4) ∷ (7, 2) ∷ [];
  categories = (reaction_name, 2) ∷ (65 ∷ [], 1) ∷ [];
  event_names = (a_task.identifiers, 1) ∷ [];
}

created-Seen : Seen after_trace (on_thread 7) a_task.identifiers
unfolding find same_string same_pointer
created-Seen = record {
  thread_known = (2, refl);
  name_known = (1, refl);
  category_known = (1, refl);
  kind_known = (2, refl);
}

started-Seen : Seen after_trace (on_thread 8) a_task.identifiers
unfolding find same_string same_pointer
started-Seen = record {
  thread_known = (4, refl);
  name_known = (1, refl);
  category_known = (1, refl);
  kind_known = (2, refl);
}

begin_trace_undefined_example :
    (file : List Packet) × ((begin_trace strip_nothing true a_task after_trace).file ≡ some file)
    × (length file ≡ 3)
    × (any (defines_iid 2 1) file ≡ false)
    × (any (defines_track 4) file ≡ false)
begin_trace_undefined_example =
    begin_trace_undefined strip_nothing true a_task after_trace 2 1 4 created-Seen started-Seen
