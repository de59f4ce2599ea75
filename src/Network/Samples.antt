-- ===== src/Network/Samples.antt =====
-- Small concrete networks and packets for the runs of src/extension/network.
use nuclear.Base.{ℕ, ◌+◌, ◌-◌, ◌*◌, ◌/◌, ◌≡◌, refl, List, [], ◌∷◌, true, length, replicate}
use nuclear.Network.Wire.{DataHeader}
use nuclear.Network.State.{SockT, ipv4, FloatOps, Network}
use nuclear.Network.Bits.{bit_room}
use nuclear.Network.Targets.{new_target}

-- Stand-ins for the arithmetic of floats, which no run here depends on.
abbrev pub floats : FloatOps ℕ
floats = record {
  add = λ a b. a + b;
  sub = λ a b. a - b;
  mul = λ a b. a * b;
  div = λ a b. a / b;
  of_duration = λ d. d;
  to_duration = λ f. f;
  process_noise = 0;
  measurement_noise = 1;
  one = 1;
}

abbrev pub group_address : SockT
group_address = ipv4 61422 39044 7447

abbrev pub peer_address : SockT
peer_address = ipv4 10 1 7447

-- A network that knows nobody but the announce address.
abbrev pub lone : Network ℕ
lone = record {
  connected = true;
  packet_data_mtu = 4;
  announce_name = 98 ∷ [];
  packet_id_source = 0;
  last_announce = 0;
  next_event = 0;
  send_queue = [];
  targets = 0 ∷ [];
  name_target = ([], 0) ∷ [];
  udp_target = ((0 ∷ 0 ∷ 0 ∷ 0 ∷ 0 ∷ 0 ∷ 61422 ∷ 39044 ∷ 7447 ∷ []), 0) ∷ [];
  heap = λ i. new_target floats [] group_address 0;
  next_target = 1;
  events = [];
}

-- The same after 255 reliable packets.
abbrev pub worn : Network ℕ
worn = record lone {
  heap = λ i. record (new_target floats [] group_address 0) { recent_packets_index = 255 };
}

-- A payload.
abbrev pub three : List ℕ
three = 1 ∷ 2 ∷ 3 ∷ []

abbrev pub header : ℕ → DataHeader
header count = record {
  packet_id = 7;
  packet_no = 0;
  packet_count = count;
  reliable = true;
  hash = 99;
}

-- A bitset of the right size for three packets.
pub room_three : length (replicate 8 true) ≡ bit_room 3
room_three = refl
