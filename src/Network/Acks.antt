-- ===== src/Network/Acks.antt =====
-- The ACK and NACK branches of `process_packet` in src/extension/network/NUClearNetwork.cpp, and the
-- round trip filter of `NetworkTarget` in src/extension/network/NUClearNetwork.hpp.
use nuclear.Base.{
  ℕ, zero, suc, ◌+◌, ◌-◌, ◌*◌, ◌%◌, List, [], ◌∷◌, Bool, true, ◌&&◌, Option, none, some, ◌==◌,
  if◌then◌else◌, length, get_elem?,
}
use nuclear.Network.Outcome.{Outcome, done, fault}
use nuclear.Network.Wire.{DataHeader, fragment}
use nuclear.Network.State.{
  FloatOps, NetworkTarget, PacketTarget, PacketQueue, Network, lookup, insert, erase, send_to,
  modify, touch, earlier_event,
}
use nuclear.Network.Bits.{bit_room, or_bits, clear_bits, all_acked}
use nuclear.Network.Fragment.{chunk}

-- `measure_round_trip`: one step of the filter and the new round trip time.
unfoldable pub measure_round_trip :
    {F : Type 0} → FloatOps F → ℕ → NetworkTarget F → NetworkTarget F
measure_round_trip fl time t =
    let p = fl.add t.round_trip_kf.variance fl.process_noise in
    let k = fl.div p (fl.add p fl.measurement_noise) in
    let x = t.round_trip_kf.mean in
    let mean = fl.add x (fl.mul (fl.sub (fl.of_duration time) x) k) in
    record t {
      round_trip_kf = record {
        variance =
            fl.div (fl.mul fl.measurement_noise p)
              (fl.add (fl.add fl.measurement_noise t.round_trip_kf.variance) fl.process_noise);
        mean = mean;
      };
      round_trip_time = fl.to_duration mean;
    }

-- The entry of a sender among the targets of a queued packet.
unfoldable pub find_target : ℕ → List PacketTarget → Option PacketTarget
find_target id [] = none
find_target id (t ∷ ts) = if t.target == id then some t else find_target id ts

-- A change of that entry, and its removal.
unfoldable pub replace_target : ℕ → PacketTarget → List PacketTarget → List PacketTarget
replace_target id s [] = []
replace_target id s (t ∷ ts) = if t.target == id then s ∷ ts else t ∷ replace_target id s ts

unfoldable pub drop_target : ℕ → List PacketTarget → List PacketTarget
drop_target id [] = []
drop_target id (t ∷ ts) = if t.target == id then ts else t ∷ drop_target id ts

-- The bits of an acknowledgement that fits the queued packet in its count and its size.
abbrev pub fits_queue : ℕ → List Bool → PacketQueue → Bool
fits_queue count bits q =
    count == q.header.packet_count && length bits == bit_room q.header.packet_count

module _ {F : Type 0} where
  -- `send_packet`: fragment `i` of a payload under its header.
  unfoldable pub send_packet : Bool → ℕ → DataHeader → ℕ → List ℕ → Network F → Network F
  send_packet retransmission id header i payload n =
      send_to id
        (fragment retransmission (record header { packet_no = i })
          (chunk n.packet_data_mtu header.packet_count payload i))
        n

  -- A queued packet after a change of its targets; without targets it leaves the queue.
  unfoldable pub settle : ℕ → PacketQueue → List PacketTarget → Network F → Network F
  settle packet_id q [] n = record n { send_queue = erase packet_id n.send_queue }
  settle packet_id q (t ∷ ts) n = record n {
    send_queue = insert packet_id (record q { targets = t ∷ ts }) n.send_queue;
  }

  -- A valid acknowledgement: measure the round trip, and add the bits to those of the target, which
  -- is done with the packet when they are all there.
  unfoldable pub apply_ack :
      FloatOps F → ℕ → ℕ → PacketQueue → PacketTarget → List Bool → ℕ → Network F → Network F
  apply_ack fl id packet_id q s bits now n =
      let measured = modify id (measure_round_trip fl (now - s.last_send)) n in
      let acked = or_bits s.acked bits in
      if all_acked q.header.packet_count acked
      then settle packet_id q (drop_target id q.targets) measured
      else record measured {
        send_queue =
            insert packet_id
              (record q { targets = replace_target id (record s { acked = acked }) q.targets })
              measured.send_queue;
      }

  abbrev pub ack_queued :
      FloatOps F
      → ℕ
      → ℕ
      → ℕ
      → List Bool
      → ℕ
      → PacketQueue
      → Option PacketTarget
      → Network F
      → Network F
  ack_queued fl id packet_id count bits now q none n = n
  ack_queued fl id packet_id count bits now q (some s) n =
      if fits_queue count bits q then apply_ack fl id packet_id q s bits now n else n

  -- The ACK branch for a known sender.
  unfoldable pub receive_ack : FloatOps F → ℕ → ℕ → ℕ → List Bool → ℕ → Network F → Network F
  receive_ack fl id packet_id count bits now n =
      let m = touch id now n in
      elim (lookup packet_id m.send_queue) [
        | none ↦ m
        | some q ↦ ack_queued fl id packet_id count bits now q (find_target id q.targets) m
      ]

  -- The loop over `packet_count * 8` that sends again what was not received, from index `i` with a
  -- number of rounds left. It reads byte `i` of the bitset for its bit `i % 8`.
  unfoldable pub resend_nacked :
      ℕ → ℕ → ℕ → PacketQueue → List Bool → Network F → Outcome (Network F)
  resend_nacked zero i id q bits n = done n
  resend_nacked (suc rounds) i id q bits n = elim (get_elem? bits (i * 8 + i % 8)) [
    | none ↦ fault
    | some b ↦
        resend_nacked rounds (suc i) id q bits
          (if b then send_packet true id q.header i q.payload n else n)
  ]

  -- A valid negative acknowledgement: clear the bits and send the fragments again.
  unfoldable pub apply_nack :
      ℕ → ℕ → PacketQueue → PacketTarget → List Bool → ℕ → Network F → Outcome (Network F)
  apply_nack id packet_id q s bits now n =
      let woken = earlier_event (now + (n.heap id).round_trip_time) n in
      let cleared : PacketTarget = record {
        target = s.target;
        acked = clear_bits s.acked bits;
        last_send = now;
      } in
      resend_nacked (q.header.packet_count * 8) 0 id q bits (record woken {
        send_queue =
            insert packet_id (record q { targets = replace_target id cleared q.targets })
              woken.send_queue;
      })

  abbrev pub nack_queued :
      ℕ
      → ℕ
      → ℕ
      → List Bool
      → ℕ
      → PacketQueue
      → Option PacketTarget
      → Network F
      → Outcome (Network F)
  nack_queued id packet_id count bits now q none n = done n
  nack_queued id packet_id count bits now q (some s) n =
      if fits_queue count bits q then apply_nack id packet_id q s bits now n else done n

  -- The NACK branch for a known sender.
  unfoldable pub receive_nack : ℕ → ℕ → ℕ → List Bool → ℕ → Network F → Outcome (Network F)
  receive_nack id packet_id count bits now n =
      let m = touch id now n in
      elim (lookup packet_id m.send_queue) [
        | none ↦ done m
        | some q ↦ nack_queued id packet_id count bits now q (find_target id q.targets) m
      ]
