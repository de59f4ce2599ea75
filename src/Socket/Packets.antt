-- ===== src/Socket/Packets.antt =====
-- src/dsl/word/UDP.hpp: the datagrams that the word and its two variants read, and which of them they
-- hand on. What `recvmsg` and `getsockname` came to is an argument.
use nuclear.Base.{
  ℕ, ◌≡◌, refl, List, [], ◌∷◌, Option, none, some, Bool, true, false, ◌&&◌, ◌||◌, ◌==◌,
  if◌then◌else◌, Bool-cases, inl, inr, arith,
}
use nuclear.Network.State.{SockT, ipv4, ipv6, other_family}
use nuclear.Socket.System.{Interface, unnamed, Result, ok, err}
use nuclear.Socket.Addresses.{same_ip6, get_multicast}

-- A header of the ancillary data.
pub data Control : Type 0 where
  ip_info : (high low : ℕ) → Control
  ipv6_info : (a b c d e f g h : ℕ) → Control
  other_header : Control

pub record Message : Type 0 where
  pub payload : List ℕ
  pub remote : SockT
  pub headers : List Control

-- `RecvResult` and `Packet`, which have the same members. An address of no family is `other_family`.
pub record Packet : Type 0 where
  pub valid : Bool
  pub payload : List ℕ
  pub local : SockT
  pub remote : SockT

abbrev pub no_packet : Packet
no_packet = record { valid = false; payload = []; local = other_family; remote = other_family }

-- The loop over the headers: the first one of the socket's family gives the address.
unfoldable pub sent_to : SockT → List Control → SockT
sent_to local [] = local
sent_to (ipv4 h l port) (ip_info high low ∷ headers) = ipv4 high low port
sent_to (ipv6 _ _ _ _ _ _ _ _ port) (ipv6_info a b c d e f g h ∷ headers) =
    ipv6 a b c d e f g h port
sent_to local (header ∷ headers) = sent_to local headers

named_packet : Message → Option SockT → Result Packet
named_packet m none = err unnamed
named_packet m (some name) = ok (record {
  valid = true;
  payload = m.payload;
  local = sent_to name m.headers;
  remote = m.remote;
})

-- `read`, with whether the event of the thread, if any, is one to read; `none` is `recvmsg` failing.
unfoldable pub read : Option Bool → Option Message → Option SockT → Result Packet
unfolding named_packet
read none received name = ok no_packet
read (some false) received name = ok no_packet
read (some true) none name = ok no_packet
read (some true) (some m) name = named_packet m name

unfoldable pub same_ip : SockT → SockT → Bool
same_ip (ipv4 high low p) (ipv4 high' low' p') = high == high' && low == low'
same_ip a b = same_ip6 a b

unfoldable pub some_interface : (Interface → Bool) → List Interface → Bool
some_interface p [] = false
some_interface p (i ∷ is) = p i || some_interface p is

-- `UDP::get`, `Broadcast::get` and `Multicast::get` of what was read.
unfoldable pub get : List Interface → Packet → Packet
get is r = if some_interface (λ i. same_ip i.ip r.local) is then r else no_packet

unfoldable pub everyone : SockT → Bool
everyone (ipv4 high low port) = high == 0xFFFF && low == 0xFFFF
everyone _ = false

unfoldable pub same_ip4 : SockT → SockT → Bool
same_ip4 (ipv4 high low p) (ipv4 high' low' p') = high == high' && low == low'
same_ip4 _ _ = false

unfoldable pub get_broadcast : List Interface → Packet → Packet
get_broadcast is r =
    if everyone r.local || some_interface (λ i. same_ip4 i.broadcast r.local && i.is_broadcast) is
    then r
    else no_packet

unfoldable pub get_multicast_packet : Bool → Packet → Packet
get_multicast_packet little r = if get_multicast little r.local then r else no_packet

get_multicast-same_ip :
    (little : Bool) (a b : SockT)
    → same_ip a b ≡ true
    → get_multicast little a ≡ get_multicast little b
unfolding same_ip same_ip6 get_multicast
get_multicast-same_ip little (ipv4 high low p) (ipv4 high' low' p') h = ground arith
get_multicast-same_ip little (ipv4 high low p) (ipv6 _ _ _ _ _ _ _ _ _) h = ground arith
get_multicast-same_ip little (ipv4 high low p) other_family h = ground arith
get_multicast-same_ip little (ipv6 a b c d e f g h p) (ipv4 _ _ _) q = ground arith
get_multicast-same_ip little (ipv6 a b c d e f g h p) (ipv6 a' b' c' d' e' f' g' h' p') q =
    ground arith
get_multicast-same_ip little (ipv6 a b c d e f g h p) other_family q = ground arith
get_multicast-same_ip little other_family b q = ground arith

interface_apart :
    (little : Bool) (is : List Interface) (a : SockT)
    → some_interface (λ i. get_multicast little i.ip) is ≡ false
    → some_interface (λ i. same_ip i.ip a) is ≡ true
    → get_multicast little a ≡ false
unfolding some_interface
interface_apart little [] a apart found = ground arith
interface_apart little (i ∷ is) a apart found = elim (Bool-cases (same_ip i.ip a)) [
  | inl this ↦ ground (arith, get_multicast-same_ip little i.ip a this)
  | inr other ↦ ground (arith, interface_apart little is a)
]

-- When no interface has a multicast address, no datagram is handed on both by `UDP` and by its variant for
-- multicasts: what the one finds valid is invalid for the other.
pub get-get_multicast_packet :
    (little : Bool) (is : List Interface) (r : Packet)
    → some_interface (λ i. get_multicast little i.ip) is ≡ false
    → (get is r).valid ≡ true
    → (get_multicast_packet little r).valid ≡ false
unfolding get get_multicast_packet
get-get_multicast_packet little is r apart found =
    elim (Bool-cases (some_interface (λ i. same_ip i.ip r.local) is)) [
      | inl this ↦ rw (interface_apart little is r.local apart this) refl
      | inr other ↦ ground arith
    ]
