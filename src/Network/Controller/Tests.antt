-- ===== src/Network/Controller/Tests.antt =====
-- Pairs of bytes through the network, to reactions of two types.
use nuclear.Base.{
  ℕ, ◌+◌, ◌<◌, ◌≡◌, refl, List, [], ◌∷◌, ◌++◌, map, none, some, Bool, true, false, arith,
}
use nuclear.Serialise.{Layout, serialise, deserialise}
use nuclear.Network.Outcome
use nuclear.Network.Wire.{DataHeader}
use nuclear.Network.State
use nuclear.Network.State.{Network, contains, lookup}
use nuclear.Network.Fragment.{packet_count, chunk}
use nuclear.Network.Targets.{new_target}
use nuclear.Network.Arrival.{numbers, receive_all}
use nuclear.Network.Samples.{header, lone}
use nuclear.Network.Controller.{
  NetworkSource, NetworkListen, Controller, done, raised, Got, got, equal_range, insert,
  packet_callback,
}
use nuclear.Network.Controller.Listeners.{listen_all}
use nuclear.Network.Controller.Delivery.{packet_callback-raises, received}

pair_value : List ℕ → ℕ × ℕ
pair_value (a ∷ b ∷ rest) = (a, b)
pair_value _ = (0, 0)

pair_value_lem : (x : ℕ × ℕ) → pair_value (x.0 ∷ x.1 ∷ []) ≡ x
unfolding pair_value
pair_value_lem (a, b) = refl

abbrev pairs : Layout (ℕ × ℕ)
pairs = record {
  bytes = λ x. x.0 ∷ x.1 ∷ [];
  value = pair_value;
  size = 2;
  size_positive = omega arith;
  length-bytes = λ x. refl;
  value-bytes = pair_value_lem;
}

abbrev two_pairs : List (ℕ × ℕ)
two_pairs = (1, 2) ∷ (3, 4) ∷ []

abbrev source : NetworkSource
source = record { name = 97 ∷ []; address = 5; reliable = true }

-- Two reactions for the hash 7, and one for 4 that listens between them.
abbrev listens : List NetworkListen
listens =
    (record { hash = 7; reaction = 1 })
    ∷ (record { hash = 4; reaction = 2 })
    ∷ (record { hash = 7; reaction = 3 })
    ∷ []

abbrev always : ℕ → Controller ℕ → Bool
always r s = true

-- A task that runs at once and counts.
abbrev counts : ℕ → Got (List (ℕ × ℕ)) → Controller ℕ → Controller ℕ
counts r g s = record s { world = s.world + 1 }

abbrev idle : List NetworkListen → Controller ℕ
idle reactions = record {
  reactions = reactions;
  locked = false;
  data_store = none;
  source_store = none;
  world = 0;
}

-- Four bytes in two fragments, of which the second comes twice before the first.
abbrev in_two : DataHeader
in_two = record (header 2) { reliable = false; hash = 7 }

abbrev twice : List (ℕ × ℕ)
twice = (1, 50) ∷ (1, 60) ∷ []

known : (i : ℕ) → contains i (numbers twice ++ 0 ∷ []) ≡ true → i < 2
unfolding contains
known i e = ground arith

complete : (i : ℕ) → i < 2 → contains i (numbers twice ++ 0 ∷ []) ≡ true
unfolding contains
complete i h = ground arith

received_example :
    (arrived : Network ℕ) × (end : Controller ℕ) × (receive_all 0 in_two
        (chunk 3 2 (serialise pairs two_pairs))
        (twice ++ (0, 70) ∷ [])
        lone
      ≡ Outcome.done arrived)
    × (arrived.events ≡ State.packet_callback 0 7 false (serialise pairs two_pairs) ∷ [])
    × (packet_callback always counts
          (deserialise pairs)
          source
          7
          (serialise pairs two_pairs)
          (idle (listen_all listens []))
        ≡ done (map (λ r. (r, got source two_pairs)) (equal_range 7 listens), end))
received_example =
    received pairs always counts (λ r s. refl) (λ r g s. refl) source 0 in_two 3 two_pairs twice 0
      70 lone refl (unfold packet_count serialise in refl) (omega arith)
      (unfold serialise in omega arith) known complete (unfold contains in refl)
      (unfold lookup new_target in refl) listens 0

-- Three bytes are no pairs.
packet_callback-raises_example :
    packet_callback always counts
      (deserialise pairs)
      source
      7
      (1 ∷ 2 ∷ 3 ∷ [])
      (idle (listen_all listens []))
    ≡ raised (
      [],
      record (idle (listen_all listens [])) {
        data_store = some (1 ∷ 2 ∷ 3 ∷ []);
        source_store = some source;
      },
    )
packet_callback-raises_example =
    packet_callback-raises always counts (deserialise pairs) (λ r s. refl) source 7 (1 ∷ 2 ∷ 3 ∷ [])
      1 (3 ∷ []) (idle (listen_all listens [])) refl (unfold listen_all equal_range insert in refl)
      (unfold deserialise in refl)
