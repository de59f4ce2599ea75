-- ===== src/Network/Quiet/Send.antt =====
-- Acknowledgements and retransmissions in src/extension/network/NUClearNetwork.cpp, and what they leave
-- alone.
use nuclear.Base.{
  ℕ, zero, suc, ◌+◌, ◌-◌, ◌*◌, ◌%◌, refl, List, [], ◌∷◌, Bool, true, false, Option, none, some, ltb,
  get_elem?, get_or, inl, inr, Bool-cases, Option-cases,
}
use nuclear.Network.Outcome.{done}
use nuclear.Network.Wire.{DataHeader}
use nuclear.Network.State.{
  modify, FloatOps, PacketTarget, PacketQueue, Network, lookup, contains, touch,
}
use nuclear.Network.Bits.{or_bits, all_acked}
use nuclear.Network.Acks.{
  measure_round_trip, find_target, send_packet, settle, apply_ack, ack_queued, receive_ack,
  resend_nacked, apply_nack, nack_queued, receive_nack, fits_queue, drop_target,
}
use nuclear.Network.Send.{
  resend_unacked, retransmit_target, retransmit_targets, retransmit_queue, retransmit,
}
use nuclear.Network.Quiet.{
  Quiet, Quiet-refl, Quiet-trans, Calm, Calm-done, Calm-trans, Calm-fault, Calm-if, Quiet-if,
  send_to-Quiet, modify-Quiet, touch-Quiet, earlier_event-Quiet,
}

module _ {F : Type 0} where
  -- Only the send queue and the events differ.
  queue-Quiet :
      (n : Network F) (queue : List (ℕ × PacketQueue)) → Quiet n (record n { send_queue = queue })
  queue-Quiet n queue = record {
    targets = refl;
    udp = refl;
    names = refl;
    next = refl;
    addresses = λ i. refl;
    labels = λ i. refl;
  }

  send_packet-Quiet :
      (b : Bool) (id : ℕ) (h : DataHeader) (i : ℕ) (payload : List ℕ) (n : Network F)
      → Quiet n (send_packet b id h i payload n)
  unfolding send_packet
  send_packet-Quiet b id h i payload n = send_to-Quiet id _ n

  settle-Quiet :
      (packet_id : ℕ) (q : PacketQueue) (ts : List PacketTarget) (n : Network F)
      → Quiet n (settle packet_id q ts n)
  unfolding settle
  settle-Quiet packet_id q [] n = queue-Quiet n _
  settle-Quiet packet_id q (t ∷ ts) n = queue-Quiet n _

  measured-Quiet :
      (fl : FloatOps F) (id time : ℕ) (n : Network F)
      → Quiet n (modify id (measure_round_trip fl time) n)
  unfolding measure_round_trip
  measured-Quiet fl id time n = modify-Quiet id (measure_round_trip fl time) n refl refl

  apply_ack-Quiet :
      (fl : FloatOps F) (id packet_id : ℕ) (q : PacketQueue) (s : PacketTarget) (bits : List Bool)
      (now : ℕ) (n : Network F)
      → Quiet n (apply_ack fl id packet_id q s bits now n)
  unfolding apply_ack
  apply_ack-Quiet fl id packet_id q s bits now n =
      Quiet-trans (measured-Quiet fl id (now - s.last_send) n) (
        Quiet-if (all_acked q.header.packet_count (or_bits s.acked bits))
          (settle-Quiet packet_id q (drop_target id q.targets) _) (queue-Quiet _ _))

  ack_queued-Quiet :
      (fl : FloatOps F) (id packet_id count : ℕ) (bits : List Bool) (now : ℕ) (q : PacketQueue)
      (s : Option PacketTarget) (n : Network F)
      → Quiet n (ack_queued fl id packet_id count bits now q s n)
  ack_queued-Quiet fl id packet_id count bits now q none n = Quiet-refl n
  ack_queued-Quiet fl id packet_id count bits now q (some s) n =
      Quiet-if (fits_queue count bits q) (apply_ack-Quiet fl id packet_id q s bits now n)
        (Quiet-refl n)

  pub receive_ack-Quiet :
      (fl : FloatOps F) (id packet_id count : ℕ) (bits : List Bool) (now : ℕ) (n : Network F)
      → Quiet n (receive_ack fl id packet_id count bits now n)
  unfolding receive_ack
  receive_ack-Quiet fl id packet_id count bits now n =
      Quiet-trans (touch-Quiet id now n) (split (lookup packet_id (touch id now n).send_queue))
    where
      m : Network F
      m = touch id now n

      split :
          (o : Option PacketQueue)
          → Quiet m (elim o [
            | none ↦ m
            | some q ↦ ack_queued fl id packet_id count bits now q (find_target id q.targets) m
          ])
      split none = Quiet-refl m
      split (some q) = ack_queued-Quiet fl id packet_id count bits now q _ m

  resend_nacked-Calm :
      (rounds i id : ℕ) (q : PacketQueue) (bits : List Bool) (n : Network F)
      → Calm n (resend_nacked rounds i id q bits n)
  unfolding resend_nacked
  resend_nacked-Calm zero i id q bits n = Calm-done (Quiet-refl n)
  resend_nacked-Calm (suc rounds) i id q bits n =
      elim (Option-cases (get_elem? bits (i * 8 + i % 8))) [
        | inl e ↦ rw (e, resend_nacked) Calm-fault
        | inr (b, e) ↦
            rw (e, resend_nacked)
              (Calm-trans
                (Quiet-if b (send_packet-Quiet true id q.header i q.payload n) (Quiet-refl n))
                (resend_nacked-Calm rounds (suc i) id q bits _))
      ]

  apply_nack-Calm :
      (id packet_id : ℕ) (q : PacketQueue) (s : PacketTarget) (bits : List Bool) (now : ℕ)
      (n : Network F)
      → Calm n (apply_nack id packet_id q s bits now n)
  unfolding apply_nack
  apply_nack-Calm id packet_id q s bits now n =
      Calm-trans
        (Quiet-trans (earlier_event-Quiet (now + (n.heap id).round_trip_time) n) (queue-Quiet _ _))
        (resend_nacked-Calm (q.header.packet_count * 8) 0 id q bits _)

  nack_queued-Calm :
      (id packet_id count : ℕ) (bits : List Bool) (now : ℕ) (q : PacketQueue)
      (s : Option PacketTarget) (n : Network F)
      → Calm n (nack_queued id packet_id count bits now q s n)
  nack_queued-Calm id packet_id count bits now q none n = Calm-done (Quiet-refl n)
  nack_queued-Calm id packet_id count bits now q (some s) n =
      Calm-if (fits_queue count bits q) (apply_nack-Calm id packet_id q s bits now n)
        (Calm-done (Quiet-refl n))

  pub receive_nack-Calm :
      (id packet_id count : ℕ) (bits : List Bool) (now : ℕ) (n : Network F)
      → Calm n (receive_nack id packet_id count bits now n)
  unfolding receive_nack
  receive_nack-Calm id packet_id count bits now n =
      Calm-trans (touch-Quiet id now n) (split (lookup packet_id (touch id now n).send_queue))
    where
      m : Network F
      m = touch id now n

      split :
          (o : Option PacketQueue)
          → Calm m (elim o [
            | none ↦ done m
            | some q ↦ nack_queued id packet_id count bits now q (find_target id q.targets) m
          ])
      split none = Calm-done (Quiet-refl m)
      split (some q) = nack_queued-Calm id packet_id count bits now q _ m

  resend_unacked-Quiet :
      (rounds i : ℕ) (t : PacketTarget) (q : PacketQueue) (n : Network F)
      → Quiet n (resend_unacked rounds i t q n)
  unfolding resend_unacked
  resend_unacked-Quiet zero i t q n = Quiet-refl n
  resend_unacked-Quiet (suc rounds) i t q n =
      Quiet-trans
        (Quiet-if (get_or t.acked i false) (Quiet-refl n)
          (send_packet-Quiet true t.target q.header i q.payload n))
        (resend_unacked-Quiet rounds (suc i) t q _)

  retransmit_target-Quiet :
      (now : ℕ) (q : PacketQueue) (t : PacketTarget) (n : Network F)
      → Quiet n (retransmit_target now q t n).1
  unfolding retransmit_target
  retransmit_target-Quiet now q t n = elim (Bool-cases (contains t.target n.targets)) [
    | inl known ↦ elim (Bool-cases (ltb (t.last_send + (n.heap t.target).round_trip_time) now)) [
      | inl late ↦
          rw (known, late)
            (Quiet-trans (earlier_event-Quiet (now + (n.heap t.target).round_trip_time) n)
              (resend_unacked-Quiet q.header.packet_count 0 t q _))
      | inr early ↦ rw (known, early) (Quiet-refl n)
    ]
    | inr gone ↦ rw gone (Quiet-refl n)
  ]

  retransmit_targets-Quiet :
      (now : ℕ) (q : PacketQueue) (ts : List PacketTarget) (n : Network F)
      → Quiet n (retransmit_targets now q ts n).1
  unfolding retransmit_targets
  retransmit_targets-Quiet now q [] n = Quiet-refl n
  retransmit_targets-Quiet now q (t ∷ ts) n =
      Quiet-trans (retransmit_target-Quiet now q t n) (retransmit_targets-Quiet now q ts _)

  retransmit_queue-Quiet :
      (now : ℕ) (queue : List (ℕ × PacketQueue)) (n : Network F)
      → Quiet n (retransmit_queue now queue n).1
  unfolding retransmit_queue
  retransmit_queue-Quiet now [] n = Quiet-refl n
  retransmit_queue-Quiet now ((packet_id, q) ∷ queue) n =
      Quiet-trans (retransmit_targets-Quiet now q q.targets n) (retransmit_queue-Quiet now queue _)

  pub retransmit-Quiet : (now : ℕ) (n : Network F) → Quiet n (retransmit now n)
  unfolding retransmit
  retransmit-Quiet now n = Quiet-trans (retransmit_queue-Quiet now n.send_queue n) (queue-Quiet _ _)
