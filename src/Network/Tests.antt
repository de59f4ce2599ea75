-- ===== src/Network/Tests.antt =====
-- Runs of the models of src/extension/network on small concrete networks.
use nuclear.Base.{
  Option, none, some, ◌^◌, ℕ, ◌<◌, ◌≡◌, ◌↔◌, refl, List, [], ◌∷◌, ◌++◌, Bool, true, false, length,
  get_or, replicate, arith,
}
use nuclear.Socket.System.{System, Request, Event, open_dgram, bind_socket, held}
use nuclear.Network.Sockets.{open_sockets, close_sockets, close_sockets-open_sockets}
use nuclear.Network.Outcome.{done}
use nuclear.Network.Send.{free_id}
use nuclear.Network.FreeId.{free_id_terminates}
use nuclear.Network.Wire.{fragment, parse, encode, read, is_packet, parse_type, parse_announce}
use nuclear.Network.Wire.Roundtrip.{parse-encode}
use nuclear.Network.State.{SockT, ipv4, PacketQueue, lookup, udp_key, Network, contains, same_bytes}
use nuclear.Network.Bits.{bit_room, all_acked}
use nuclear.Network.Bits.Laws.{all_acked_iff}
use nuclear.Network.Targets.{add_target, find_key, new_target, join, receive_announce, announce_new}
use nuclear.Network.Process.{
  process, announce_due, timed_out, remove_all, report_left, process_packets, reset, shutdown,
  data_mtu, bind_matches, Datagram, handle, process_packet,
}
use nuclear.Network.Quiet.{Agree}
use nuclear.Network.Lifecycle.{process-Agree}
use nuclear.Network.Samples.{floats, group_address, peer_address, lone, three, header, room_three}

lone-Agree : Agree lone
unfolding udp_key contains find_key new_target
lone-Agree = (omega arith, refl, refl, refl, refl, refl, refl, tt)

abbrev greeting : Datagram
greeting = record {
  from = peer_address;
  time = 5;
  bytes = 0xE2 ∷ 0x98 ∷ 0xA2 ∷ 0x02 ∷ 1 ∷ 97 ∷ 0 ∷ [];
}

abbrev peer_key : List ℕ
peer_key = 0 ∷ 0 ∷ 0 ∷ 0 ∷ 0 ∷ 0 ∷ 10 ∷ 1 ∷ 7447 ∷ []

abbrev joined : Network ℕ
joined = join floats peer_key peer_address (97 ∷ []) 5 lone

greeting_joins : process_packet floats greeting lone ≡ done joined
unfolding process_packet handle is_packet parse_type parse_announce find_key same_bytes udp_key
    receive_announce announce_new
greeting_joins = refl

lone_contains : contains 0 (0 ∷ []) ≡ true
unfolding contains
lone_contains = refl

parse-encode_example :
    parse (encode (fragment false (header 1) three)) ≡ read (fragment false (header 1) three)
parse-encode_example = parse-encode (fragment false (header 1) three) (record {
  id_fits = omega arith;
  no_fits = omega arith;
  count_fits = omega arith;
  hash_fits = omega arith;
})

all_acked_iff_example :
    (all_acked 3 (replicate 8 true) ≡ true)
    ↔ ((i : ℕ) → i < 3 → get_or (replicate 8 true) i false ≡ true)
all_acked_iff_example = all_acked_iff 3 (replicate 8 true) room_three (λ e. ground arith)

abbrev eight_acked : List Bool
eight_acked = replicate 8 true ++ replicate 8 false

room_eight : length eight_acked ≡ bit_room 8
room_eight = refl

process_joins : process floats true 5 (greeting ∷ []) [] lone ≡ done joined
unfolding process announce_due timed_out remove_all report_left process_packets process_packet
    handle is_packet parse_type parse_announce find_key same_bytes udp_key receive_announce
    announce_new
process_joins = refl

process-Agree_example : Agree joined
process-Agree_example =
    process-Agree floats true 5 (greeting ∷ []) [] lone joined lone-Agree process_joins

-- `lone` again, after a reset with its own name and address.
abbrev again : Network ℕ
again =
    add_target (0 ∷ 0 ∷ 0 ∷ 0 ∷ 0 ∷ 0 ∷ 61422 ∷ 39044 ∷ 7447 ∷ [])
      (new_target floats [] group_address 9)
      (record (shutdown lone) {
        connected = true;
        send_queue = [];
        name_target = [];
        targets = [];
        udp_target = [];
        packet_data_mtu = data_mtu 1500;
        announce_name = 98 ∷ [];
      })

resets : reset floats (98 ∷ []) group_address none 1500 true 9 lone ≡ done again
unfolding reset bind_matches udp_key
resets = refl

-- A packet that waits under the next id.
abbrev waiting : List (ℕ × PacketQueue)
waiting =
    (
      8,
      record {
        targets = [];
        header = record {
          packet_id = 8;
          packet_no = 0;
          packet_count = 1;
          reliable = true;
          hash = 0;
        };
        payload = [];
      },
    )
    ∷ []

free_id_terminates_example :
    (id : ℕ) × (free_id (2 ^ 16) 7 waiting ≡ some id) × (lookup id waiting ≡ none)
free_id_terminates_example = free_id_terminates 7 waiting (omega arith)

-- A system that gives out the descriptor 7, and refuses to bind.
abbrev sockets_answer : Request → Option ℕ
sockets_answer (bind_socket fd a) = none
sockets_answer _ = some 7

abbrev no_bind : System
no_bind = record {
  ask = λ h r. sockets_answer r;
  getsockname = λ h fd. none;
  getaddrinfo = λ name port. none;
  get_interfaces = [];
  if_nametoindex = λ name. 0;
}

seven_above :
    (h : List Event) (a : SockT) (fd : ℕ) → no_bind.ask h (open_dgram a) ≡ some fd → 0 < fd
seven_above h a fd e = ground arith

close_sockets-open_sockets_example :
    let (fds, h') = open_sockets no_bind true (ipv4 1 2 3) (ipv4 0 0 3) [] in
    held (close_sockets fds h') ≡ held []
close_sockets-open_sockets_example =
    close_sockets-open_sockets no_bind seven_above true (ipv4 1 2 3) (ipv4 0 0 3) []
