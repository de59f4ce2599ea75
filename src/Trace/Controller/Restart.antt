-- ===== src/Trace/Controller/Restart.antt =====
-- src/extension/TraceController.cpp: what a second trace lacks.
use nuclear.Base.{ℕ, ◌≡◌, refl, ap, ◌∙◌, List, [], ◌∷◌, Option, none, some, Bool, false, length}
use nuclear.Trace.Packets.{Packet, TrackEvent, reaction_event, reset}
use nuclear.Trace.Interner.{find, intern}
use nuclear.Trace.State.{
  Statistics, EventType, TraceController, same_string, same_pointer, same_thread, reaction_name,
  created, started, ThreadInfo, Moment, Identifiers,
}
use nuclear.Trace.Controller.{
  write_packets, write_trace_packet, thread, intern_category, intern_event_name, look_up,
  encode_event, begin_trace, relevant_event, reactor_name, slice_type, flow_of,
}
use nuclear.Trace.Controller.Defined.{any, defines_iid, defines_track}

-- The controller has a track for the thread of a moment, and ids for the strings of an event.
pub record Seen (s : TraceController) (at : Moment) (ids : Option Identifiers) : Type 0 where
  pub thread_known :
      (track : ℕ) × (find same_thread at.thread.thread_id s.thread_uuids ≡ some track)
  pub name_known : (iid : ℕ) × (find same_pointer ids s.event_names ≡ some iid)
  pub category_known : (iid : ℕ) × (find same_string (reactor_name ids) s.categories ≡ some iid)
  pub kind_known : (iid : ℕ) × (find same_string reaction_name s.categories ≡ some iid)

write_nothing : (file : Option (List Packet)) → write_packets [] file ≡ file
unfolding write_packets
write_nothing none = refl
write_nothing (some f) = refl

thread_seen :
    (t : ThreadInfo) (s : TraceController) (track : ℕ)
    → find same_thread t.thread_id s.thread_uuids ≡ some track
    → thread t s ≡ (track, s)
unfolding thread
thread_seen t s track e = rw (e, thread) refl

category_seen :
    (name : List ℕ) (s : TraceController) (iid : ℕ)
    → find same_string name s.categories ≡ some iid
    → intern_category name s ≡ (iid, s)
unfolding intern_category intern
category_seen name s iid e = rw (e, intern, write_nothing s.file) refl

module _ (strip : List ℕ → List ℕ) where
  name_seen :
      (ids : Option Identifiers) (s : TraceController) (iid : ℕ)
      → find same_pointer ids s.event_names ≡ some iid
      → intern_event_name strip ids s ≡ (iid, s)
  unfolding intern_event_name intern
  name_seen ids s iid e = rw (e, intern, write_nothing s.file) refl

  look_up-Seen :
      (s : TraceController) (at : Moment) (ids : Option Identifiers) (type : ℕ)
      → Seen s at ids
      → (look_up strip at ids reaction_name type s).1 ≡ s
  unfolding look_up
  look_up-Seen s at ids type seen =
      let (track, t) = seen.thread_known in
      let (name, n) = seen.name_known in
      let (category, c) = seen.category_known in
      let (kind, k) = seen.kind_known in
      rw
        (
          thread_seen at.thread s track t,
          name_seen ids s name n,
          category_seen (reactor_name ids) s category c,
          category_seen reaction_name s kind k,
        )
        refl

  -- An event of what the controller has seen before writes its own packet and no other.
  encode_event-Seen :
      (type : EventType) (stats : Statistics) (s : TraceController) (f : List Packet)
      → s.file ≡ some f
      → Seen s (relevant_event type stats) stats.identifiers
      → (e : TrackEvent) × (encode_event strip type stats s
          ≡ record s { file = some (reaction_event e (flow_of type stats.task_id) ∷ f) })
  unfolding encode_event write_trace_packet write_packets
  encode_event-Seen type stats s f file_open seen =
      let found =
        look_up strip (relevant_event type stats) stats.identifiers reaction_name (slice_type type)
          s in
      let same : found.1 ≡ s =
        look_up-Seen s (relevant_event type stats) stats.identifiers (slice_type type) seen in
      let p = reaction_event found.0 (flow_of type stats.task_id) in
      (
        found.0,
        ap (write_trace_packet p) same
            ∙ ap (λ x. record s { file = write_packets (p ∷ []) x }) file_open,
      )

  -- A trace that starts when the controller has already seen the threads and the names of the current
  -- task holds three packets, the reset and two events, and none that defines a string or a
  -- track, whatever its kind and id.
  pub begin_trace_undefined :
      (logs : Bool) (current : Statistics) (s : TraceController) (kind iid uuid : ℕ)
      → Seen s current.created_at current.identifiers
      → Seen s current.started_at current.identifiers
      → (file : List Packet) × ((begin_trace strip logs current s).file ≡ some file)
        × (length file ≡ 3)
        × (any (defines_iid kind iid) file ≡ false)
        × (any (defines_track uuid) file ≡ false)
  unfolding begin_trace any defines_iid defines_track relevant_event write_trace_packet
      write_packets
  begin_trace_undefined logs current s kind iid uuid at_creation at_start =
      let cleared : TraceController = record s {
        event_bound = false;
        log_bound = false;
        file = some (reset ∷ []);
      } in
      let (e, first) = encode_event-Seen created current cleared (reset ∷ []) refl (record {
        thread_known = at_creation.thread_known;
        name_known = at_creation.name_known;
        category_known = at_creation.category_known;
        kind_known = at_creation.kind_known;
      }) in
      let p = reaction_event e (flow_of created current.task_id) in
      let (d, second) =
        encode_event-Seen started current (record cleared { file = some (p ∷ reset ∷ []) })
          (p ∷ reset ∷ []) refl
          (record {
            thread_known = at_start.thread_known;
            name_known = at_start.name_known;
            category_known = at_start.category_known;
            kind_known = at_start.kind_known;
          }) in
      (
        reaction_event d (flow_of started current.task_id) ∷ p ∷ reset ∷ [],
        ap (λ x. (encode_event strip started current x).file) first ∙ ap (λ x. x.file) second,
        refl,
        refl,
        refl,
      )
