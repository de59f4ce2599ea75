-- ===== src/Trace/Controller/Traces.antt =====
-- src/extension/TraceController.cpp: every reference in a trace is to what stands before it.
use nuclear.Base.{ℕ, ◌≡◌, refl, List, [], ◌∷◌, Option, some, Bool, arith, inl}
use nuclear.Trace.Packets.{Packet, TrackEvent, reaction_event, log_event, reset, type_instant}
use nuclear.Trace.State.{
  Identifiers, Moment, Statistics, EventType, LogMessage, TraceController, reaction_name, log_name,
  created, started, new_controller,
}
use nuclear.Trace.Controller.{
  write_packets, write_trace_packet, thread, intern_category, intern_body, intern_event_name,
  look_up, encode_event, encode_log, begin_trace, relevant_event, slice_type, reactor_name,
  identifiers_of, priority_of, flow_of,
}
use nuclear.Trace.Controller.Defined.{
  defines_iid, defines_track, EventDefined, Uses, WellDefined, Extends, any_mono, AllIn-mono,
}
use nuclear.Trace.Controller.Runs.{
  Good, Written, process_kept, category-Good, body-Good, name-Good, thread-Good,
}

-- A packet that defines nothing.
write-Good :
    (p : Packet) (s : TraceController) (f : List Packet)
    → Good s f
    → Uses p f
    → Good (write_trace_packet p s) (p ∷ f)
unfolding write_trace_packet write_packets WellDefined
write-Good p s f good uses =
    let ext : Extends f (p ∷ f) = (p ∷ [], refl) in
    record {
      is_open = rw (good.is_open, write_packets) refl;
      well = (uses, good.well);
      process_track_known = process_kept s.process_uuid f _ ext good.process_track_known;
      threads_known = AllIn-mono defines_track s.thread_uuids f _ ext good.threads_known;
      categories_known = AllIn-mono (defines_iid 1) s.categories f _ ext good.categories_known;
      names_known = AllIn-mono (defines_iid 2) s.event_names f _ ext good.names_known;
      bodies_known = AllIn-mono (defines_iid 20) s.log_message_bodies f _ ext good.bodies_known;
    }

EventDefined-mono :
    (e : TrackEvent) (f g : List Packet) → Extends f g → EventDefined e f → EventDefined e g
EventDefined-mono e f g ext d = record {
  on_track = any_mono _ f g ext d.on_track;
  counter = d.counter;
  named = any_mono _ f g ext d.named;
  in_category = any_mono _ f g ext d.in_category;
  of_kind = any_mono _ f g ext d.of_kind;
}

-- A call on the statistics of the tasks that it is about.
pub data Input : Type 0 where
  event : EventType → Statistics → Input
  log : Statistics → LogMessage → Input

module _ (strip : List ℕ → List ℕ) where
  look_up-Good :
      (at : Moment) (ids : Option Identifiers) (kind : List ℕ) (type : ℕ) (s : TraceController)
      (f : List Packet)
      → Good s f
      → (g : List Packet) × Good (look_up strip at ids kind type s).1 g
        × EventDefined (look_up strip at ids kind type s).0 g
  unfolding look_up Written
  look_up-Good at ids kind type s f good =
      let s1 = (thread at.thread s).1 in
      let s2 = (intern_event_name strip ids s1).1 in
      let s3 = (intern_category (reactor_name ids) s2).1 in
      let (f1, ext1, good1, track) = thread-Good at.thread s f good in
      let (f2, ext2, good2, name) = name-Good strip ids s1 f1 good1 in
      let (f3, ext3, good3, category) = category-Good (reactor_name ids) s2 f2 good2 in
      let (f4, ext4, good4, kind_known) = category-Good kind s3 f3 good3 in
      (
        f4,
        good4,
        record {
          on_track = any_mono _ f3 f4 ext4 (any_mono _ f2 f3 ext3 (any_mono _ f1 f2 ext2 track));
          counter = omega arith;
          named = any_mono _ f3 f4 ext4 (any_mono _ f2 f3 ext3 name);
          in_category = any_mono _ f3 f4 ext4 category;
          of_kind = kind_known;
        },
      )

  encode_event-Good :
      (type : EventType) (stats : Statistics) (s : TraceController) (f : List Packet)
      → Good s f
      → (g : List Packet) × Good (encode_event strip type stats s) g
  unfolding encode_event Uses
  encode_event-Good type stats s f good =
      let found =
        look_up strip (relevant_event type stats) stats.identifiers reaction_name (slice_type type)
          s in
      let (g, good_found, defined) =
        look_up-Good (relevant_event type stats) stats.identifiers reaction_name (slice_type type) s
          f good in
      let p = reaction_event found.0 (flow_of type stats.task_id) in
      (p ∷ g, write-Good p found.1 g good_found defined)

  encode_log-Good :
      (stats : Statistics) (msg : LogMessage) (s : TraceController) (f : List Packet)
      → Good s f
      → (g : List Packet) × Good (encode_log strip stats msg s) g
  unfolding encode_log Uses Written
  encode_log-Good stats msg s f good =
      let found =
        look_up strip stats.created_at (identifiers_of msg.statistics) log_name type_instant s in
      let (g, good_found, defined) =
        look_up-Good stats.created_at (identifiers_of msg.statistics) log_name type_instant s f
          good in
      let (h, ext, good_body, body) = body-Good msg.message found.1 g good_found in
      let interned_body = intern_body msg.message found.1 in
      let p = log_event found.0 interned_body.0 (priority_of msg.level) in
      (
        p ∷ h,
        write-Good p interned_body.1 h good_body (EventDefined-mono found.0 g h ext defined, body),
      )

  begin_trace-Good :
      (logs : Bool) (current : Statistics)
      → (g : List Packet) × Good (begin_trace strip logs current new_controller) g
  unfolding begin_trace WellDefined Uses
  begin_trace-Good logs current =
      let opened : TraceController = record new_controller { file = some [] } in
      let empty : Good opened [] = record {
        is_open = refl;
        well = tt;
        process_track_known = inl refl;
        threads_known = tt;
        categories_known = tt;
        names_known = tt;
        bodies_known = tt;
      } in
      let cleared = write_trace_packet reset opened in
      let (f, good_created) =
        encode_event-Good created current cleared (reset ∷ [])
          (write-Good reset opened [] empty tt) in
      let (g, good_started) =
        encode_event-Good started current (encode_event strip created current cleared) f
          good_created in
      (
        g,
        record {
          is_open = good_started.is_open;
          well = good_started.well;
          process_track_known = good_started.process_track_known;
          threads_known = good_started.threads_known;
          categories_known = good_started.categories_known;
          names_known = good_started.names_known;
          bodies_known = good_started.bodies_known;
        },
      )

  unfoldable pub encode : Input → TraceController → TraceController
  encode (event type stats) s = encode_event strip type stats s
  encode (log stats msg) s = encode_log strip stats msg s

  unfoldable pub encode_all : List Input → TraceController → TraceController
  encode_all [] s = s
  encode_all (i ∷ is) s = encode_all is (encode i s)

  encode_all-Good :
      (inputs : List Input) (s : TraceController) (f : List Packet)
      → Good s f
      → (g : List Packet) × Good (encode_all inputs s) g
  unfolding encode_all encode
  encode_all-Good [] s f good = (f, good)
  encode_all-Good (event type stats ∷ is) s f good =
      let (g, good_event) = encode_event-Good type stats s f good in
      encode_all-Good is (encode_event strip type stats s) g good_event
  encode_all-Good (log stats msg ∷ is) s f good =
      let (g, good_log) = encode_log-Good stats msg s f good in
      encode_all-Good is (encode_log strip stats msg s) g good_log

  -- In the first trace of a controller, whatever events and log messages follow, each packet refers only
  -- to tracks and interned strings that an earlier packet of the file defines.
  pub first_trace-WellDefined :
      (logs : Bool) (current : Statistics) (inputs : List Input)
      → (file : List Packet) × ((encode_all inputs
            (begin_trace strip logs current new_controller)).file
          ≡ some file)
        × WellDefined file
  first_trace-WellDefined logs current inputs =
      let (f, good) = begin_trace-Good logs current in
      let (g, all) =
        encode_all-Good inputs (begin_trace strip logs current new_controller) f good in
      (g, all.is_open, all.well)
