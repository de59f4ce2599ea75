-- ===== src/Network/State.antt =====
-- The data of `NUClearNetwork` (src/extension/network/NUClearNetwork.hpp). A shared pointer to a
-- `NetworkTarget` is an index of `heap`; a weak pointer locks while the target is in the list
-- `targets`. A map is an association list, with its keys in order where they are numbers and in the
-- order of insertion where they are names or addresses. Times are nanoseconds, strings bytes. What
-- the calls send, hand to callbacks and schedule is the list `events`.
use nuclear.Base.{
  ℕ, List, [], ◌∷◌, ◌++◌, Bool, true, false, ◌&&◌, ◌||◌, Option, none, some, ltb, ◌==◌,
  if◌then◌else◌,
}
use nuclear.Network.Wire.{DataHeader, Packet}

-- `sock_t`: the words of the address and the port, for the two families that the library knows.
pub data SockT : Type 0 where
  ipv4 : (high low port : ℕ) → SockT
  ipv6 : (a b c d e f g h port : ℕ) → SockT
  other_family : SockT

unfoldable pub udp_key : SockT → Option (List ℕ)
udp_key (ipv4 high low port) = some (0 ∷ 0 ∷ 0 ∷ 0 ∷ 0 ∷ 0 ∷ high ∷ low ∷ port ∷ [])
udp_key (ipv6 a b c d e f g h port) = some (a ∷ b ∷ c ∷ d ∷ e ∷ f ∷ g ∷ h ∷ port ∷ [])
udp_key other_family = none

-- `RoundTripKF`, over the type of the floats; its noises are constants.
pub record RoundTripKf (F : Type 0) : Type 0 where
  pub variance : F
  pub mean : F

-- The arithmetic of `float` and the casts of a duration to and from seconds in a float.
pub record FloatOps (F : Type 0) : Type 0 where
  pub add : F → F → F
  pub sub : F → F → F
  pub mul : F → F → F
  pub div : F → F → F
  pub of_duration : ℕ → F
  pub to_duration : F → ℕ
  pub process_noise : F
  pub measurement_noise : F
  pub one : F

-- The fragments of one packet received so far, by number.
abbrev pub Parts : Type 0
Parts = List (ℕ × List ℕ)

pub record Assembler : Type 0 where
  pub last_chunk_time : ℕ
  pub parts : Parts

pub record NetworkTarget (F : Type 0) : Type 0 where
  pub name : List ℕ
  pub target : SockT
  pub last_update : ℕ
  pub recent_packets : List (Option ℕ)  -- `none` for the initial -1
  pub recent_packets_index : ℕ
  pub assemblers : List (ℕ × Assembler)
  pub round_trip_kf : RoundTripKf F
  pub round_trip_time : ℕ

pub record PacketTarget : Type 0 where
  pub target : ℕ
  pub acked : List Bool
  pub last_send : ℕ

pub record PacketQueue : Type 0 where
  pub targets : List PacketTarget
  pub header : DataHeader
  pub payload : List ℕ

pub data Event : Type 0 where
  sent : SockT → Packet → Event
  packet_callback : (from hash : ℕ) (reliable : Bool) (payload : List ℕ) → Event
  join_callback : ℕ → Event
  leave_callback : ℕ → Event
  next_event_callback : ℕ → Event

pub record Network (F : Type 0) : Type 0 where
  pub connected : Bool  -- whether the sockets are open
  pub packet_data_mtu : ℕ
  pub announce_name : List ℕ
  pub packet_id_source : ℕ
  pub last_announce : ℕ
  pub next_event : ℕ
  pub send_queue : List (ℕ × PacketQueue)
  pub targets : List ℕ
  pub name_target : List (List ℕ × ℕ)
  pub udp_target : List (List ℕ × ℕ)
  pub heap : ℕ → NetworkTarget F
  pub next_target : ℕ
  pub events : List Event

abbrev pub second : ℕ
second = 1_000_000_000

-- Equality of strings and keys.
unfoldable pub same_bytes : List ℕ → List ℕ → Bool
same_bytes [] [] = true
same_bytes (x ∷ xs) (y ∷ ys) = (x == y) && same_bytes xs ys
same_bytes _ _ = false

module _ {ℓ} {A : Type ℓ} where
  -- `find` in a map with numbers for keys.
  unfoldable pub lookup : ℕ → List (ℕ × A) → Option A
  lookup key [] = none
  lookup key ((j, value) ∷ rest) = if j == key then some value else lookup key rest

  -- Assignment through `operator[]`; the keys of a `std::map` stand in order.
  unfoldable pub insert : ℕ → A → List (ℕ × A) → List (ℕ × A)
  insert key new [] = (key, new) ∷ []
  insert key new ((j, old) ∷ rest) =
      if key == j
      then (key, new) ∷ rest
      else if ltb key j
      then (key, new) ∷ (j, old) ∷ rest
      else (j, old) ∷ insert key new rest

  unfoldable pub erase : ℕ → List (ℕ × A) → List (ℕ × A)
  erase k [] = []
  erase k ((j, w) ∷ m) = if j == k then m else (j, w) ∷ erase k m

unfoldable pub contains : ℕ → List ℕ → Bool
contains a [] = false
contains a (x ∷ xs) = x == a || contains a xs

abbrev pub update {ℓ} : {A : Type ℓ} → (ℕ → A) → ℕ → A → ℕ → A
update f i a j = if i == j then a else f j

module _ {F : Type 0} where
  unfoldable pub emit : Event → Network F → Network F
  emit e n = record n { events = n.events ++ e ∷ [] }

  -- Sending a packet to a target.
  unfoldable pub send_to : ℕ → Packet → Network F → Network F
  send_to id p n = emit (sent (n.heap id).target p) n

  unfoldable pub modify : ℕ → (NetworkTarget F → NetworkTarget F) → Network F → Network F
  modify id f n = record n { heap = update n.heap id (f (n.heap id)) }

  unfoldable pub touch : ℕ → ℕ → Network F → Network F
  touch id now n = modify id (λ t. record t { last_update = now }) n

  -- "The next time we should check for a timeout": an earlier time replaces the next event.
  unfoldable pub earlier_event : ℕ → Network F → Network F
  earlier_event next_timeout n =
      if ltb next_timeout n.next_event
      then emit (next_event_callback next_timeout) (record n { next_event = next_timeout })
      else n
