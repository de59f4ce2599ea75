-- ===== src/Trace/Controller.antt =====
-- src/extension/TraceController.cpp: the functions of the controller and its handlers. The regular expression
-- of `name_for_id` is a parameter.
pub mod Defined
pub mod Runs
pub mod Traces
pub mod Restart
mod Tests
use nuclear.Base.{ℕ, ◌+◌, ◌==◌, List, [], ◌∷◌, Option, none, some, Bool, true, false, if◌then◌else◌}
use nuclear.Trace.Packets.{
  Packet, TrackEvent, process_track, thread_tracks, reaction_event, log_event, reset,
  type_slice_begin, type_slice_end, type_instant,
}
use nuclear.Trace.Interner.{find, intern}
use nuclear.Trace.State.{
  Identifiers, ThreadInfo, Moment, Statistics, EventType, LogLevel, LogMessage, TraceController,
  same_string, same_pointer, same_thread, reaction_name, log_name, power_plant_name, no_pool_name,
  created, missing_data, blocked, started, finished, unknown, trace, debug, info, warn, error,
  fatal,
}

-- `write_trace_packet`, of several packets in order.
unfoldable pub write_packets : List Packet → Option (List Packet) → Option (List Packet)
write_packets ps none = none
write_packets [] (some file) = some file
write_packets (p ∷ ps) (some file) = write_packets ps (some (p ∷ file))

unfoldable pub write_trace_packet : Packet → TraceController → TraceController
write_trace_packet p s = record s { file = write_packets (p ∷ []) s.file }

-- `process`.
unfoldable pub process : TraceController → ℕ × TraceController
process s =
    if s.process_uuid == 0
    then (1, write_trace_packet process_track (record s { process_uuid = 1 }))
    else (s.process_uuid, s)

abbrev pub pool_name : Option (List ℕ) → List ℕ
pool_name none = no_pool_name
pool_name (some name) = name

-- The rest of `thread`, for a thread that has no track.
unfoldable pub new_thread : ThreadInfo → ℕ × TraceController → ℕ × TraceController
new_thread thread_info (parent_uuid, s) = (
  s.next_uuid,
  write_trace_packet (thread_tracks s.next_uuid parent_uuid (pool_name thread_info.pool))
      (record s {
        next_uuid = s.next_uuid + 2;
        thread_uuids = (thread_info.thread_id, s.next_uuid) ∷ s.thread_uuids;
      }),
)

-- `thread`.
unfoldable pub thread : ThreadInfo → TraceController → ℕ × TraceController
thread thread_info s = elim (find same_thread thread_info.thread_id s.thread_uuids) [
  | some uuid ↦ (uuid, s)
  | none ↦ new_thread thread_info (process s)
]

-- `categories[name]`, `log_message_bodies[body]` and `event_names[ids]`.
unfoldable pub intern_category : List ℕ → TraceController → ℕ × TraceController
intern_category name s =
    let (iid, written, m) = intern same_string 1 (λ key. key) name s.categories in
    (iid, record s { file = write_packets written s.file; categories = m })

unfoldable pub intern_body : List ℕ → TraceController → ℕ × TraceController
intern_body body s =
    let (iid, written, m) = intern same_string 20 (λ key. key) body s.log_message_bodies in
    (iid, record s { file = write_packets written s.file; log_message_bodies = m })

-- `relevant_event`.
unfoldable pub relevant_event : EventType → Statistics → Moment
relevant_event created s = s.created_at
relevant_event missing_data s = s.created_at
relevant_event blocked s = s.created_at
relevant_event started s = s.started_at
relevant_event finished s = s.finished_at

abbrev pub slice_type : EventType → ℕ
slice_type started = type_slice_begin
slice_type finished = type_slice_end
slice_type created = type_instant
slice_type missing_data = type_instant
slice_type blocked = type_instant

abbrev pub flow_of : EventType → ℕ → Option ℕ
flow_of created id = some id
flow_of started id = some id
flow_of missing_data id = none
flow_of blocked id = none
flow_of finished id = none

abbrev pub reactor_name : Option Identifiers → List ℕ
reactor_name none = power_plant_name
reactor_name (some ids) = ids.reactor

abbrev pub priority_of : LogLevel → ℕ
priority_of unknown = 0
priority_of trace = 2
priority_of debug = 3
priority_of info = 4
priority_of warn = 5
priority_of error = 6
priority_of fatal = 7

abbrev pub identifiers_of : Option Statistics → Option Identifiers
identifiers_of none = none
identifiers_of (some stats) = stats.identifiers

module _ (strip : List ℕ → List ℕ) where
  -- `name_for_id`.
  unfoldable pub name_for_id : Option Identifiers → List ℕ
  name_for_id none = []
  name_for_id (some ids) = elim ids.name [ [] ↦ strip ids.dsl | c ∷ cs ↦ c ∷ cs ]

  unfoldable pub intern_event_name : Option Identifiers → TraceController → ℕ × TraceController
  intern_event_name ids s =
      let (iid, written, m) = intern same_pointer 2 name_for_id ids s.event_names in
      (iid, record s { file = write_packets written s.file; event_names = m })

  -- The track, the name and the two categories that an event and a log message look up, in their order.
  unfoldable pub look_up :
      Moment → Option Identifiers → List ℕ → ℕ → TraceController → TrackEvent × TraceController
  look_up at ids kind type s =
      let (track, s1) = thread at.thread s in
      let (name_iid, s2) = intern_event_name ids s1 in
      let (category_iid, s3) = intern_category (reactor_name ids) s2 in
      let (kind_iid, s4) = intern_category kind s3 in
      (
        record {
          timestamp = at.real_time;
          track = track;
          name_iid = name_iid;
          category_iid = category_iid;
          kind_iid = kind_iid;
          type = type;
          counter_track = track + 1;
          counter_value = at.thread_time;
        },
        s4,
      )

  -- `encode_event`, of an event with statistics.
  unfoldable pub encode_event : EventType → Statistics → TraceController → TraceController
  encode_event type stats s =
      let (e, looked) =
        look_up (relevant_event type stats) stats.identifiers reaction_name (slice_type type) s in
      write_trace_packet (reaction_event e (flow_of type stats.task_id)) looked

  -- `encode_log`, for the statistics of the logging task.
  unfoldable pub encode_log : Statistics → LogMessage → TraceController → TraceController
  encode_log log_stats msg s =
      let (e, looked) =
        look_up log_stats.created_at (identifiers_of msg.statistics) log_name type_instant s in
      let (body_iid, interned) = intern_body msg.message looked in
      write_trace_packet (log_event e body_iid (priority_of msg.level)) interned

  -- `BeginTrace`, for the statistics of the current task.
  unfoldable pub begin_trace : Bool → Statistics → TraceController → TraceController
  begin_trace logs current s =
      let cleared =
        write_trace_packet reset
          (record s { event_bound = false; log_bound = false; file = some [] }) in
      record (encode_event started current (encode_event created current cleared)) {
        event_bound = true;
        log_bound = logs;
      }

-- `EndTrace`.
unfoldable pub end_trace : TraceController → TraceController
end_trace s = record s { event_bound = false; log_bound = false; file = none }
