-- ===== src/Network/Targets.antt =====
-- Who is on the network: `remove_target`, and the ANNOUNCE and LEAVE branches of `process_packet`, in
-- src/extension/network/NUClearNetwork.cpp. The search for a target and the change that follows it
-- are one step here, where the source takes its mutex twice.
pub mod Listed
use nuclear.Base.{
  ℕ, suc, ◌+◌, List, [], ◌∷◌, ◌++◌, Bool, ◌&&◌, Option, none, some, ◌==◌, if◌then◌else◌, length,
  replicate,
}
use nuclear.Network.Outcome.{Outcome, done, raised, fault, ◌>>=◌}
use nuclear.Network.Wire.{announce}
use nuclear.Network.State.{
  SockT, udp_key, FloatOps, NetworkTarget, join_callback, leave_callback, Network, same_bytes,
  update, emit, send_to, touch,
}

-- `udp_target.find(key)`.
unfoldable pub find_key : List ℕ → List (List ℕ × ℕ) → Option ℕ
find_key k [] = none
find_key k ((j, id) ∷ m) = if same_bytes j k then some id else find_key k m

unfoldable pub erase_key : List ℕ → List (List ℕ × ℕ) → List (List ℕ × ℕ)
erase_key k [] = []
erase_key k ((j, id) ∷ m) = if same_bytes j k then m else (j, id) ∷ erase_key k m

-- The entry of a target among the entries of its name.
unfoldable pub erase_name : List ℕ → ℕ → List (List ℕ × ℕ) → List (List ℕ × ℕ)
erase_name name id [] = []
erase_name name id ((j, i) ∷ m) =
    if same_bytes j name && i == id then m else (j, i) ∷ erase_name name id m

unfoldable pub erase_target : ℕ → List ℕ → List ℕ
erase_target id [] = []
erase_target id (x ∷ xs) = if x == id then xs else x ∷ erase_target id xs

abbrev pub or_raise {ℓ} : {A : Type ℓ} → Option A → Outcome A
or_raise none = raised
or_raise (some a) = done a

-- The elements of `recent_packets`: one for each value of a uint8_t but one.
abbrev pub recent_size : ℕ
recent_size = 255

-- A new target as the constructor of `NetworkTarget` leaves it.
unfoldable pub new_target : {F : Type 0} → FloatOps F → List ℕ → SockT → ℕ → NetworkTarget F
new_target fl name address now = record {
  name = name;
  target = address;
  last_update = now;
  recent_packets = replicate recent_size none;
  recent_packets_index = 0;
  assemblers = [];
  round_trip_kf = record { variance = fl.one; mean = fl.one };
  round_trip_time = 1_000_000_000;
}

module _ {F : Type 0} where
  -- `remove_target`, which takes the target out of the three lists.
  unfoldable pub remove_target : ℕ → Network F → Outcome (Network F)
  remove_target id n = or_raise (udp_key (n.heap id).target) >>= λ key. done (record n {
    udp_target = erase_key key n.udp_target;
    name_target = erase_name (n.heap id).name id n.name_target;
    targets = erase_target id n.targets;
  })

  -- A new target at the end of the three lists.
  unfoldable pub add_target : List ℕ → NetworkTarget F → Network F → Network F
  add_target key t n = record n {
    targets = n.targets ++ n.next_target ∷ [];
    udp_target = n.udp_target ++ (key, n.next_target) ∷ [];
    name_target = n.name_target ++ (t.name, n.next_target) ∷ [];
    heap = update n.heap n.next_target t;
    next_target = suc n.next_target;
  }

  -- An announcement from an unknown address that has a name: the target joins and is greeted.
  unfoldable pub join : FloatOps F → List ℕ → SockT → List ℕ → ℕ → Network F → Network F
  join fl key address name now n = emit (join_callback n.next_target) (
      send_to n.next_target (announce (some n.announce_name))
        (add_target key (new_target fl name address now) n))

  -- An announcement from an unknown address. The name of a datagram that ends before the name's
  -- last byte gets a length below zero.
  unfoldable pub announce_new :
      FloatOps F → List ℕ → SockT → Option (List ℕ) → ℕ → Network F → Outcome (Network F)
  announce_new fl key address none now n = fault
  announce_new fl key address (some []) now n = done n
  announce_new fl key address (some (c ∷ cs)) now n = done (join fl key address (c ∷ cs) now n)

  -- The ANNOUNCE branch.
  unfoldable pub receive_announce :
      FloatOps F → Option ℕ → List ℕ → SockT → Option (List ℕ) → ℕ → Network F → Outcome (Network F)
  receive_announce fl none key address name now n = announce_new fl key address name now n
  receive_announce fl (some id) key address name now n = done (touch id now n)

  -- The LEAVE branch.
  unfoldable pub receive_leave : Option ℕ → Network F → Outcome (Network F)
  receive_leave none n = done n
  receive_leave (some id) n = remove_target id n >>= λ m. done (emit (leave_callback id) m)
