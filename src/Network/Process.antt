-- ===== src/Network/Process.antt =====
-- `process_packet`, `process`, `announce`, `shutdown` and `reset` of
-- src/extension/network/NUClearNetwork.cpp. What the system calls return is an argument: the
-- datagrams that wait on the two sockets with the times at which they are read, whether a send
-- succeeds, whether the sockets open, and the addresses that `resolve` finds.
use nuclear.Base.{
  ℕ, ◌+◌, ◌*◌, ◌-◌, ◌%◌, ◌^◌, List, [], ◌∷◌, Bool, true, false, ◌&&◌, Option, none, some, ltb,
  if◌then◌else◌, get_or,
}
use nuclear.Network.Outcome.{Outcome, done, raised, fault, ◌>>=◌}
use nuclear.Network.Wire.{
  Packet, announce, leave, fragment, ack, nack, Parsed, ignored, short_data, short_ack, short_nack,
  read, is_packet, parse_type,
}
use nuclear.Network.State.{
  SockT, udp_key, FloatOps, Network, second, leave_callback, next_event_callback, emit, send_to,
  ipv4, ipv6, other_family,
}
use nuclear.Network.Targets.{
  find_key, or_raise, remove_target, new_target, receive_announce, receive_leave, add_target,
}
use nuclear.Network.Data.{receive_data}
use nuclear.Network.Acks.{receive_ack, receive_nack}
use nuclear.Network.Send.{named, retransmit}

-- The sender of a datagram with a time and its bytes.
pub record Datagram : Type 0 where
  pub from : SockT
  pub time : ℕ
  pub bytes : List ℕ

abbrev pub milliseconds : ℕ → ℕ
milliseconds n = n * 1_000_000

abbrev pub same_family : SockT → SockT → Bool
same_family (ipv4 _ _ _) (ipv4 _ _ _) = true
same_family (ipv6 _ _ _ _ _ _ _ _ _) (ipv6 _ _ _ _ _ _ _ _ _) = true
same_family other_family other_family = true
same_family _ _ = false

-- The check of the address to bind to, which may be left open.
unfoldable pub bind_matches : Option SockT → SockT → Bool
bind_matches none other_family = false
bind_matches none announce_target = true
bind_matches (some bind) announce_target = same_family bind announce_target

-- The mtu less the sizes of the headers, in a uint16_t.
unfoldable pub data_mtu : ℕ → ℕ
data_mtu network_mtu = (network_mtu + 2 ^ 16 - 20 - 40 - 8) % 2 ^ 16

abbrev pub behind_first : List ℕ → List ℕ
behind_first [] = []
behind_first (x ∷ xs) = xs

module _ {F : Type 0} where
  -- A field read behind the end of a short datagram, which only a known sender gets to.
  abbrev pub short_from : Option ℕ → Network F → Outcome (Network F)
  short_from none n = done n
  short_from (some id) n = fault

  -- The branches of `process_packet`, by the type of the packet.
  unfoldable pub handle :
      FloatOps F → Option ℕ → List ℕ → SockT → Parsed → ℕ → Network F → Outcome (Network F)
  handle fl remote key address ignored now n = done n
  handle fl remote key address short_data now n = fault
  handle fl remote key address short_ack now n = short_from remote n
  handle fl remote key address short_nack now n = short_from remote n
  handle fl remote key address (read (announce name)) now n =
      receive_announce fl remote key address name now n
  handle fl remote key address (read leave) now n = receive_leave remote n
  handle fl remote key address (read (fragment retransmission h chunk)) now n =
      receive_data remote retransmission h chunk now n
  handle fl none key address (read (ack packet_id packet_no count bits)) now n = done n
  handle fl (some id) key address (read (ack packet_id packet_no count bits)) now n =
      done (receive_ack fl id packet_id count bits now n)
  handle fl none key address (read (nack packet_id count bits)) now n = done n
  handle fl (some id) key address (read (nack packet_id count bits)) now n =
      receive_nack id packet_id count bits now n

  unfoldable pub process_packet : FloatOps F → Datagram → Network F → Outcome (Network F)
  process_packet fl d n =
      if is_packet d.bytes
      then (or_raise (udp_key d.from) >>= λ key.
          handle fl (find_key key n.udp_target) key d.from (parse_type (get_or d.bytes 4 0) d.bytes)
            d.time n)
      else done n

  -- The datagrams of a socket, in the order in which they are read.
  unfoldable pub process_packets : FloatOps F → List Datagram → Network F → Outcome (Network F)
  process_packets fl [] n = done n
  process_packets fl (d ∷ ds) n = process_packet fl d n >>= process_packets fl ds

  -- The same packet to each of some targets.
  unfoldable pub send_each : Packet → List ℕ → Network F → Network F
  send_each p [] n = n
  send_each p (id ∷ ids) n = send_each p ids (send_to id p n)

  -- `announce`, which throws when a send fails.
  unfoldable pub announce_all : Bool → Network F → Outcome (Network F)
  announce_all sends n =
      if sends
      then done (send_each (announce (some n.announce_name)) (named [] n.name_target) n)
      else raised

  -- The announcement that `process` makes every half second.
  unfoldable pub announce_due : Bool → ℕ → Network F → Outcome (Network F)
  announce_due sends now n =
      if ltb (n.last_announce + milliseconds 500) now
      then (announce_all sends (record n { last_announce = now }) >>= λ m.
          let next = now + milliseconds 500 in
          done (
            if ltb m.next_event next
            then emit (next_event_callback next) (record m { next_event = next })
            else m))
      else done n

  -- The targets, behind the first, that were silent for two seconds.
  unfoldable pub timed_out : ℕ → List ℕ → Network F → List ℕ
  timed_out now [] n = []
  timed_out now (id ∷ ids) n =
      if ltb ((n.heap id).last_update + 2 * second) now
      then id ∷ timed_out now ids n
      else timed_out now ids n

  unfoldable pub remove_all : List ℕ → Network F → Outcome (Network F)
  remove_all [] n = done n
  remove_all (id ∷ ids) n = remove_target id n >>= remove_all ids

  unfoldable pub report_left : List ℕ → Network F → Network F
  report_left [] n = n
  report_left (id ∷ ids) n = report_left ids (emit (leave_callback id) n)

  abbrev pub retransmit_due : ℕ → Network F → Network F
  retransmit_due now n = elim n.send_queue [ [] ↦ n | _ ∷ _ ↦ retransmit now n ]

  unfoldable pub process :
      FloatOps F → Bool → ℕ → List Datagram → List Datagram → Network F → Outcome (Network F)
  process fl sends now announced received n = do
    a ← announce_due sends now n
    let leavers = timed_out now (behind_first a.targets) a
    b ← remove_all leavers a
    c ← process_packets fl announced (retransmit_due now (report_left leavers b))
    process_packets fl received c

  -- `shutdown`: say goodbye to the announce targets and close the sockets.
  unfoldable pub shutdown : Network F → Network F
  shutdown n =
      if n.connected
      then record (send_each leave (named [] n.name_target) n) { connected = false }
      else n

  -- `reset`, with a failure of `open_data` or `open_announce` as an exception.
  unfoldable pub reset :
      FloatOps F → List ℕ → SockT → Option SockT → ℕ → Bool → ℕ → Network F → Outcome (Network F)
  reset fl name announce_target bind network_mtu opens now n =
      if bind_matches bind announce_target && opens
      then (or_raise (udp_key announce_target) >>= λ key. done (
          add_target key (new_target fl [] announce_target now) (record (shutdown n) {
            connected = true;
            send_queue = [];
            name_target = [];
            targets = [];
            udp_target = [];
            packet_data_mtu = data_mtu network_mtu;
            announce_name = name;
          })))
      else raised
