-- ===== src/Trace/Framing.antt =====
-- src/extension/TraceController.cpp and src/extension/trace/StringInterner.hpp: the bytes of the packets as frames,
-- each the field 1 of the trace with its length.
use nuclear.Base.{
  ℕ, ◌+◌, ◌%◌, ◌^◌, ◌≡◌, refl, sym, subst, ap, ◌∙◌, List, [], ◌++◌, append_assoc, append-nil,
  Option, none, some, length, arith,
}
use nuclear.Trace.Protobuf.{
  uint64, string, open_message, tag, varint, redundant_varint, length_delimited,
}
use nuclear.Trace.Protobuf.Fields.{sub_message_lem}
use nuclear.Trace.Packets.{
  Packet, process_track, thread_tracks, interned, reaction_event, log_event, reset, int32, message,
  nuclear_name, trusted_packet_sequence_id, seq_needs_incremental_state,
  seq_incremental_state_cleared, counter_thread_time_ns, write_process, write_thread,
  write_interned, write_head, write_flow, write_event, write_log, write_reset, packet_bytes,
}

-- A writer leaves what stood before, and appends the same bytes to anything.
unfoldable pub Appends : (List ℕ → List ℕ) → Type 0
Appends f = (content : List ℕ) × ((out : List ℕ) → f out ≡ out ++ content)

-- A packet as the trace holds it.
unfoldable pub frame : List ℕ → List ℕ
frame content = (tag 1 2 ++ redundant_varint (length content) 2) ++ content

Appends-uint64 : (id v : ℕ) → Appends (uint64 id v)
unfolding Appends uint64
Appends-uint64 id v = (tag id 0 ++ varint v, λ out. refl)

Appends-int32 : (id v : ℕ) → Appends (int32 id v)
unfolding Appends int32 uint64
Appends-int32 id v = (tag id 0 ++ varint (v % 2 ^ 32), λ out. refl)

Appends-string : (id : ℕ) (s : List ℕ) → Appends (string id s)
unfolding Appends string
Appends-string id s = (tag id 2 ++ length_delimited s, λ out. refl)

Appends-compose : (f g : List ℕ → List ℕ) → Appends f → Appends g → Appends (λ out. f (g out))
unfolding Appends
Appends-compose f g (a, p) (b, q) =
    (b ++ a, λ out. p (g out) ∙ ap (λ x. x ++ a) (q out) ∙ append_assoc out b a)

Appends-message : (id : ℕ) (body : List ℕ → List ℕ) → Appends body → Appends (message id body)
unfolding Appends
Appends-message id body (content, p) = (
  (tag id 2 ++ redundant_varint (length content) 2) ++ content,
  λ out. sub_message_lem id 2 body content out (omega arith) (p (open_message id 2 out)),
)

-- Bytes that are frames, one behind the other.
pub data Frames : List ℕ → Type 0 where
  no_frames : Frames []
  next_frame : (content rest : List ℕ) → Frames rest → Frames (frame content ++ rest)

framed :
    (body : List ℕ → List ℕ)
    → Appends body
    → (content : List ℕ) × ((out : List ℕ) → message 1 body out ≡ out ++ frame content)
unfolding Appends frame
framed body (content, p) =
    (content, λ out. sub_message_lem 1 2 body content out (omega arith) (p (open_message 1 2 out)))

one_frame : (body : List ℕ → List ℕ) → Appends body → Frames (message 1 body [])
one_frame body a =
    let (content, p) = framed body a in
    subst Frames (append-nil (frame content) ∙ sym (p [])) (next_frame content [] no_frames)

two-Frames :
    (first second : List ℕ → List ℕ)
    → Appends first
    → Appends second
    → Frames (message 1 second (message 1 first []))
two-Frames first second a b =
    let (c, p) = framed first a in
    let (d, q) = framed second b in
    subst Frames
      (ap (λ x. frame c ++ x) (append-nil (frame d))
        ∙ ap (λ x. x ++ frame d) (sym (p []))
        ∙ sym (q (message 1 first [])))
      (next_frame c (frame d ++ []) (next_frame d [] no_frames))

Appends-nothing : Appends (λ out. out)
unfolding Appends
Appends-nothing = ([], λ out. sym (append-nil out))

Appends-flow : (flow : Option ℕ) → Appends (write_flow flow)
unfolding write_flow
Appends-flow none = Appends-nothing
Appends-flow (some id) = Appends-uint64 47 id

Appends-head : (timestamp : ℕ) → Appends (write_head timestamp)
unfolding write_head
Appends-head timestamp =
    Appends-compose _ _ (Appends-int32 13 seq_needs_incremental_state) (
      Appends-compose _ _ (Appends-int32 10 trusted_packet_sequence_id)
        (Appends-uint64 8 timestamp))

-- Whatever a packet holds, its bytes are frames, one behind the other: each is the tag of the trace's
-- field 1, the length of the content modulo 2^14 in two bytes, and the content.
pub packet_bytes-Frames : (p : Packet) → Frames (packet_bytes p)
unfolding packet_bytes write_process write_thread write_interned write_event write_log write_reset
packet_bytes-Frames process_track = one_frame _ (
    Appends-message 60 _ (
      Appends-compose _ _
        (Appends-message 3 _
          (Appends-compose _ _ (Appends-string 6 nuclear_name) (Appends-int32 1 1)))
        (Appends-uint64 1 1)))
packet_bytes-Frames (thread_tracks uuid parent name) =
    two-Frames _ _
      (Appends-message 60 _ (
        Appends-compose _ _
          (Appends-message 4 _ (
            Appends-compose _ _ (Appends-string 5 name)
              (Appends-compose _ _ (Appends-int32 2 uuid) (Appends-int32 1 parent))))
          (Appends-compose _ _ (Appends-uint64 5 parent) (Appends-uint64 1 uuid))))
      (Appends-message 60 _ (
        Appends-compose _ _ (Appends-message 8 _ (Appends-int32 1 counter_thread_time_ns))
          (Appends-compose _ _ (Appends-uint64 5 uuid) (Appends-uint64 1 (uuid + 1)))))
packet_bytes-Frames (interned field iid name) = one_frame _ (
    Appends-compose _ _
      (Appends-message 12 _ (
        Appends-message field _
          (Appends-compose _ _ (Appends-string 2 name) (Appends-uint64 1 iid))))
      (Appends-int32 10 trusted_packet_sequence_id))
packet_bytes-Frames (reaction_event e flow) = one_frame _ (
    Appends-compose _ _
      (Appends-message 11 _ (
        Appends-compose _ _ (Appends-flow flow) (
          Appends-compose _ _ (Appends-uint64 12 e.counter_value) (
            Appends-compose _ _ (Appends-uint64 31 e.counter_track) (
              Appends-compose _ _ (Appends-uint64 3 e.kind_iid) (
                Appends-compose _ _ (Appends-uint64 3 e.category_iid) (
                  Appends-compose _ _ (Appends-uint64 10 e.name_iid) (
                    Appends-compose _ _ (Appends-uint64 11 e.track) (Appends-int32 9 e.type)))))))))
      (Appends-head e.timestamp))
packet_bytes-Frames (log_event e body prio) = one_frame _ (
    Appends-compose _ _
      (Appends-message 11 _ (
        Appends-compose _ _
          (Appends-message 21 _
            (Appends-compose _ _ (Appends-int32 3 prio) (Appends-uint64 2 body)))
          (Appends-compose _ _ (Appends-uint64 12 e.counter_value) (
            Appends-compose _ _ (Appends-uint64 31 e.counter_track) (
              Appends-compose _ _ (Appends-int32 9 e.type) (
                Appends-compose _ _ (Appends-uint64 3 e.kind_iid) (
                  Appends-compose _ _ (Appends-uint64 3 e.category_iid) (
                    Appends-compose _ _ (Appends-uint64 10 e.name_iid)
                      (Appends-uint64 11 e.track)))))))))
      (Appends-head e.timestamp))
packet_bytes-Frames reset = one_frame _ (
    Appends-compose _ _ (Appends-int32 13 seq_incremental_state_cleared) (
      Appends-compose _ _ (Appends-int32 42 1)
        (Appends-compose _ _ (Appends-int32 87 1) (Appends-int32 10 trusted_packet_sequence_id))))
