-- ===== src/Trace/Packets.antt =====
-- src/extension/TraceController.cpp and src/extension/trace/StringInterner.hpp: the packets they write, and the
-- bytes of each. A string is its bytes, and a signed value its unsigned bit pattern.
use nuclear.Base.{ℕ, ◌+◌, ◌%◌, ◌^◌, List, [], ◌∷◌, Option, none, some}
use nuclear.Trace.Protobuf.{uint64, string, sub_message}

abbrev pub trusted_packet_sequence_id : ℕ
trusted_packet_sequence_id = 1

-- `SequenceFlags`, `TrackDescriptorType` and `BuiltinCounterType`.
abbrev pub seq_incremental_state_cleared : ℕ
seq_incremental_state_cleared = 1

abbrev pub seq_needs_incremental_state : ℕ
seq_needs_incremental_state = 2

abbrev pub type_slice_begin : ℕ
type_slice_begin = 1

abbrev pub type_slice_end : ℕ
type_slice_end = 2

abbrev pub type_instant : ℕ
type_instant = 3

abbrev pub counter_thread_time_ns : ℕ
counter_thread_time_ns = 1

-- "NUClear".
abbrev pub nuclear_name : List ℕ
nuclear_name = 78 ∷ 85 ∷ 67 ∷ 108 ∷ 101 ∷ 97 ∷ 114 ∷ []

-- What an event and a log message write alike.
pub record TrackEvent : Type 0 where
  pub timestamp : ℕ
  pub track : ℕ
  pub name_iid : ℕ
  pub category_iid : ℕ
  pub kind_iid : ℕ
  pub type : ℕ
  pub counter_track : ℕ
  pub counter_value : ℕ

-- One write to the file.
pub data Packet : Type 0 where
  process_track : Packet
  thread_tracks : ℕ → ℕ → List ℕ → Packet
  interned : ℕ → ℕ → List ℕ → Packet
  reaction_event : TrackEvent → Option ℕ → Packet
  log_event : TrackEvent → ℕ → ℕ → Packet
  reset : Packet

-- `int32` and `uint32`.
unfoldable pub int32 : ℕ → ℕ → List ℕ → List ℕ
int32 id value out = uint64 id (value % 2 ^ 32) out

-- A `SubMessage` with the default of two reserved bytes.
abbrev pub message : ℕ → (List ℕ → List ℕ) → List ℕ → List ℕ
message id body out = sub_message id 2 body out

-- The packet that `process` writes.
unfoldable pub write_process : List ℕ → List ℕ
write_process =
    message 1
      (message 60 (λ out. message 3 (λ o. string 6 nuclear_name (int32 1 1 o)) (uint64 1 1 out)))

-- The packets that `thread` writes.
unfoldable pub write_thread : ℕ → ℕ → List ℕ → List ℕ → List ℕ
write_thread uuid parent_uuid name out =
    let track =
      message 1
        (message 60 (λ o.
          message 4 (λ p. string 5 name (int32 2 uuid (int32 1 parent_uuid p)))
            (uint64 5 parent_uuid (uint64 1 uuid o))))
        out in
    message 1
      (message 60
        (λ o. message 8 (int32 1 counter_thread_time_ns) (uint64 5 uuid (uint64 1 (uuid + 1) o))))
      track

-- The packet of an interned string, for the field of its kind.
unfoldable pub write_interned : ℕ → ℕ → List ℕ → List ℕ → List ℕ
write_interned field iid name = message 1 (λ out.
    message 12 (message field (λ o. string 2 name (uint64 1 iid o)))
      (int32 10 trusted_packet_sequence_id out))

-- What stands before the track event.
unfoldable pub write_head : ℕ → List ℕ → List ℕ
write_head timestamp out =
    int32 13 seq_needs_incremental_state
      (int32 10 trusted_packet_sequence_id (uint64 8 timestamp out))

unfoldable pub write_flow : Option ℕ → List ℕ → List ℕ
write_flow none out = out
write_flow (some task_id) out = uint64 47 task_id out

-- The packet that `encode_event` writes.
unfoldable pub write_event : TrackEvent → Option ℕ → List ℕ → List ℕ
write_event e flow = message 1 (λ out.
    message 11
      (λ o. write_flow flow (
        uint64 12 e.counter_value (
          uint64 31 e.counter_track (
            uint64 3 e.kind_iid (
              uint64 3 e.category_iid
                (uint64 10 e.name_iid (uint64 11 e.track (int32 9 e.type o))))))))
      (write_head e.timestamp out))

-- The packet that `encode_log` writes.
unfoldable pub write_log : TrackEvent → ℕ → ℕ → List ℕ → List ℕ
write_log e body_iid prio = message 1 (λ out.
    message 11
      (λ o.
        message 21 (λ p. int32 3 prio (uint64 2 body_iid p))
          (uint64 12 e.counter_value (
            uint64 31 e.counter_track (
              int32 9 e.type (
                uint64 3 e.kind_iid
                  (uint64 3 e.category_iid (uint64 10 e.name_iid (uint64 11 e.track o))))))))
      (write_head e.timestamp out))

-- The packet that starts a trace.
unfoldable pub write_reset : List ℕ → List ℕ
write_reset = message 1 (λ out.
    int32 13 seq_incremental_state_cleared
      (int32 42 1 (int32 87 1 (int32 10 trusted_packet_sequence_id out))))

unfoldable pub packet_bytes : Packet → List ℕ
packet_bytes process_track = write_process []
packet_bytes (thread_tracks uuid parent name) = write_thread uuid parent name []
packet_bytes (interned field iid name) = write_interned field iid name []
packet_bytes (reaction_event e flow) = write_event e flow []
packet_bytes (log_event e body prio) = write_log e body prio []
packet_bytes reset = write_reset []
