-- ===== src/Network/Send.antt =====
-- `send` and `retransmit` of src/extension/network/NUClearNetwork.cpp.
use nuclear.Base.{
  ℕ, zero, suc, ◌+◌, ◌%◌, ◌^◌, List, [], ◌∷◌, ◌++◌, Bool, true, false, ◌&&◌, ◌||◌, not, Option,
  none, some, ltb, if◌then◌else◌, get_or,
}
use nuclear.Network.Outcome.{Outcome, done, raised, hangs, ◌>>=◌}
use nuclear.Network.Wire.{DataHeader}
use nuclear.Network.State.{
  PacketTarget, PacketQueue, Network, same_bytes, lookup, insert, contains, earlier_event,
}
use nuclear.Network.Bits.{blank}
use nuclear.Network.Fragment.{packet_count}
use nuclear.Network.Acks.{send_packet}

-- `while (send_queue.count(++packet_id_source) > 0)` on fuel; `none` when every id was tried.
unfoldable pub free_id : ℕ → ℕ → List (ℕ × PacketQueue) → Option ℕ
free_id zero source queue = none
free_id (suc fuel) source queue =
    let next = (source + 1) % 2 ^ 16 in
    elim (lookup next queue) [ none ↦ some next | some q ↦ free_id fuel next queue ]

-- The targets of a name, in the order in which they joined.
unfoldable pub named : List ℕ → List (List ℕ × ℕ) → List ℕ
named name [] = []
named name ((j, id) ∷ m) = if same_bytes j name then id ∷ named name m else named name m

-- The targets that a reliable packet waits for: those of its name or, for no name, everyone but the
-- announce target.
unfoldable pub interested : List ℕ → List (List ℕ × ℕ) → List ℕ
interested name [] = []
interested name ((j, id) ∷ m) =
    if (same_bytes name [] || same_bytes j name) && not (same_bytes j [])
    then id ∷ interested name m
    else interested name m

unfoldable pub packet_targets : ℕ → ℕ → List ℕ → List PacketTarget
packet_targets count now [] = []
packet_targets count now (id ∷ ids) =
    record { target = id; acked = blank count; last_send = now } ∷ packet_targets count now ids

abbrev pub or_hang {ℓ} : {A : Type ℓ} → Option A → Outcome A
or_hang none = hangs
or_hang (some a) = done a

abbrev pub keep_queue :
    ℕ → PacketQueue → List PacketTarget → List (ℕ × PacketQueue) → List (ℕ × PacketQueue)
keep_queue packet_id q [] rest = rest
keep_queue packet_id q (t ∷ ts) rest = (packet_id, record q { targets = t ∷ ts }) ∷ rest

module _ {F : Type 0} where
  -- The next event is moved up to the first timeout of each of the targets.
  unfoldable pub wake_for : ℕ → List ℕ → Network F → Network F
  wake_for now [] n = n
  wake_for now (id ∷ ids) n = wake_for now ids (earlier_event (now + (n.heap id).round_trip_time) n)

  -- A reliable packet is kept until its targets have acknowledged it.
  unfoldable pub enqueue : List ℕ → DataHeader → List ℕ → ℕ → Network F → Network F
  enqueue name header payload now n =
      let ids = interested name n.name_target in
      wake_for now ids (record n {
        send_queue =
            insert header.packet_id
              (record {
                targets = packet_targets header.packet_count now ids;
                header = header;
                payload = payload;
              })
              n.send_queue;
      })

  -- One fragment to each of the targets.
  unfoldable pub send_all : ℕ → List ℕ → DataHeader → List ℕ → Network F → Network F
  send_all i [] header payload n = n
  send_all i (id ∷ ids) header payload n =
      send_all i ids header payload (send_packet false id header i payload n)

  -- The fragments from number `i` on, `rounds` of them.
  unfoldable pub send_fragments : ℕ → ℕ → List ℕ → DataHeader → List ℕ → Network F → Network F
  send_fragments zero i ids header payload n = n
  send_fragments (suc rounds) i ids header payload n =
      send_fragments rounds (suc i) ids header payload (send_all i ids header payload n)

  unfoldable pub send : ℕ → List ℕ → List ℕ → Bool → ℕ → Network F → Outcome (Network F)
  send hash payload name reliable now n = elim n.targets [
    | [] ↦ raised
    | _ ∷ _ ↦ or_hang (free_id (2 ^ 16) n.packet_id_source n.send_queue) >>= λ packet_id.
        let count = packet_count n.packet_data_mtu payload in
        let header : DataHeader = record {
          packet_id = packet_id;
          packet_no = 0;
          packet_count = count;
          reliable = reliable;
          hash = hash;
        } in
        let claimed = record n { packet_id_source = packet_id } in
        let queued = (if reliable then enqueue name header payload now claimed else claimed) in
        done (send_fragments count 0 (named name queued.name_target) header payload queued)
  ]

  -- The fragments from number `i` on that a target has not acknowledged, sent again.
  unfoldable pub resend_unacked : ℕ → ℕ → PacketTarget → PacketQueue → Network F → Network F
  resend_unacked zero i t q n = n
  resend_unacked (suc rounds) i t q n =
      resend_unacked rounds (suc i) t q
        (if get_or t.acked i false then n else send_packet true t.target q.header i q.payload n)

  -- One target of a queued packet: what is left of its entry, and the network.
  unfoldable pub retransmit_target :
      ℕ → PacketQueue → PacketTarget → Network F → List PacketTarget × Network F
  retransmit_target now q t n =
      let rtt = (n.heap t.target).round_trip_time in
      if contains t.target n.targets
      then if ltb (t.last_send + rtt) now
        then (
          record t { last_send = now } ∷ [],
          resend_unacked q.header.packet_count 0 t q (earlier_event (now + rtt) n),
        )
        else (t ∷ [], n)
      else ([], n)

  unfoldable pub retransmit_targets :
      ℕ → PacketQueue → List PacketTarget → Network F → List PacketTarget × Network F
  retransmit_targets now q [] n = ([], n)
  retransmit_targets now q (t ∷ ts) n =
      let (kept, m) = retransmit_target now q t n in
      let (rest, last) = retransmit_targets now q ts m in (kept ++ rest, last)

  -- The loop over the queue; a packet without targets leaves it.
  unfoldable pub retransmit_queue :
      ℕ → List (ℕ × PacketQueue) → Network F → List (ℕ × PacketQueue) × Network F
  retransmit_queue now [] n = ([], n)
  retransmit_queue now ((packet_id, q) ∷ queue) n =
      let (kept, m) = retransmit_targets now q q.targets n in
      let (rest, last) = retransmit_queue now queue m in (keep_queue packet_id q kept rest, last)

  unfoldable pub retransmit : ℕ → Network F → Network F
  retransmit now n =
      let (queue, m) = retransmit_queue now n.send_queue n in record m { send_queue = queue }
