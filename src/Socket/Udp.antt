-- ===== src/Socket/Udp.antt =====
-- src/dsl/word/UDP.hpp, the sockets that `UDP` and its two variants listen on, and the datagram that
-- src/dsl/word/emit/UDP.hpp sends, on a system that has SO_REUSEPORT.
use nuclear.Base.{ℕ, List, [], ◌∷◌, Bool, true, false, not, ◌&&◌, ◌||◌, ◌==◌, if◌then◌else◌}
use nuclear.Network.State.{SockT, ipv4, ipv6, other_family}
use nuclear.Socket.System.{
  System, open_dgram, setsockopt, bind_socket, sendto, ip_pktinfo, ipv6_recvpktinfo, so_reuseaddr,
  so_reuseport, ip_add_membership, ip_multicast_if, ipv6_join_group, ipv6_multicast_if,
  so_broadcast, unknown_family, families_differ, Result, ok, err, Exec, ◌>>=◌, ◌>>◌, pure, lift,
  note, must, must_name, owned, scoped, nothing, unbinder, watched,
}
use nuclear.Socket.Addresses.{
  resolve, any_like, same_family, if_number_from_address, emit_multicast,
}

pub data ConnectType : Type 0 where
  unicast : ConnectType
  broadcast : ConnectType
  multicast : ConnectType

pub record ConnectOptions : Type 0 where
  pub type : ConnectType
  pub bind_address : List ℕ
  pub port : ℕ
  pub target_address : List ℕ

unfoldable pub is_empty : List ℕ → Bool
is_empty [] = true
is_empty (x ∷ xs) = false

-- `size`, which throws for an unknown family.
unfoldable pub size : SockT → Result (Unit {0})
size other_family = err unknown_family
size (ipv4 _ _ _) = ok tt
size (ipv6 _ _ _ _ _ _ _ _ _) = ok tt

-- An address to bind to, of the family of another; `resolve` is called with its name.
unfoldable pub bind_like : System → List ℕ → ℕ → SockT → Exec SockT
bind_like sys name port like = if is_empty name then lift (any_like like port) else do
  local ← lift (resolve sys name port)
  if same_family like local then pure local else lift (err families_differ)

-- The first part of `connect`: the address to bind to, and the target of a multicast.
unfoldable pub addresses : System → ConnectOptions → ConnectType → Exec (SockT × SockT)
addresses sys o multicast = do
  target ← lift (resolve sys o.target_address o.port)
  local ← bind_like sys o.bind_address o.port target
  pure (local, target)
addresses sys o _ =
    if is_empty o.bind_address
    then pure (ipv4 0 0 o.port, other_family)
    else do local ← lift (resolve sys o.bind_address o.port); pure (local, other_family)

unfoldable pub ancillary : System → ℕ → SockT → Exec ℕ
ancillary sys fd (ipv4 _ _ _) = must sys (setsockopt fd ip_pktinfo)
ancillary sys fd (ipv6 _ _ _ _ _ _ _ _ _) = must sys (setsockopt fd ipv6_recvpktinfo)
ancillary sys fd other_family = pure 0

unfoldable pub reuse : System → ℕ → Exec ℕ
reuse sys fd = do must sys (setsockopt fd so_reuseaddr); must sys (setsockopt fd so_reuseport)

unfoldable pub bind_to : System → ℕ → SockT → Exec ℕ
bind_to sys fd a = do lift (size a); must sys (bind_socket fd a)

unfoldable pub join : System → ℕ → SockT → SockT → Exec ℕ
join sys fd local (ipv4 high low port) = do
  must sys (setsockopt fd (ip_add_membership (ipv4 high low port) local))
  must sys (setsockopt fd (ip_multicast_if local))
join sys fd local (ipv6 a b c d e f g h port) = do
  number ← lift (if_number_from_address sys local)
  must sys (setsockopt fd (ipv6_join_group (ipv6 a b c d e f g h port) number))
  must sys (setsockopt fd (ipv6_multicast_if number))
join sys fd local other_family = pure 0

unfoldable pub join_multicast : System → ℕ → ConnectType → SockT → SockT → Exec ℕ
join_multicast sys fd multicast local target = join sys fd local target
join_multicast sys fd _ local target = pure 0

unfoldable pub port_of : SockT → Result ℕ
port_of (ipv4 high low port) = ok port
port_of (ipv6 a b c d e f g h port) = ok port
port_of other_family = err unknown_family

-- What `connect` does while the `FileDescriptor` owns the socket.
unfoldable pub prepare : System → ConnectOptions → SockT → SockT → ℕ → Exec ℕ
prepare sys o local target fd = do
  ancillary sys fd local
  reuse sys fd
  bind_to sys fd local
  join_multicast sys fd o.type local target
  name ← must_name sys fd
  lift (port_of name)

-- `release`, with what follows it: the unbinder that closes the descriptor, and `IO::bind`.
unfoldable pub hand_over : ℕ → ℕ → Exec (ℕ × ℕ)
hand_over port fd = do note (unbinder fd); note (watched fd); pure (port, fd)

-- `UDP::connect`: the port and the descriptor.
unfoldable pub connect : System → ConnectOptions → Exec (ℕ × ℕ)
connect sys o = do
  (local, target) ← addresses sys o o.type
  fd ← must sys (open_dgram local)
  port ← owned nothing fd (prepare sys o local target fd)
  hand_over port fd

-- `UDP::bind`, `Broadcast::bind` and `Multicast::bind`.
unfoldable pub bind : System → ℕ → List ℕ → Exec (ℕ × ℕ)
bind sys port bind_address =
    connect sys
      (record { type = unicast; bind_address = bind_address; port = port; target_address = [] })

unfoldable pub bind_broadcast : System → ℕ → List ℕ → Exec (ℕ × ℕ)
bind_broadcast sys port bind_address =
    connect sys
      (record { type = broadcast; bind_address = bind_address; port = port; target_address = [] })

unfoldable pub bind_multicast : System → List ℕ → ℕ → List ℕ → Exec (ℕ × ℕ)
bind_multicast sys group port bind_address =
    connect sys (record {
      type = multicast;
      bind_address = bind_address;
      port = port;
      target_address = group;
    })

-- The options of an emission of a multicast from an address that was given.
unfoldable pub multicast_from : System → ℕ → SockT → Exec ℕ
multicast_from sys fd (ipv4 high low port) =
    must sys (setsockopt fd (ip_multicast_if (ipv4 high low port)))
multicast_from sys fd (ipv6 a b c d e f g h port) = do
  number ← lift (if_number_from_address sys (ipv6 a b c d e f g h port))
  must sys (setsockopt fd (ipv6_multicast_if number))
multicast_from sys fd other_family = pure 0

unfoldable pub when : Bool → Exec ℕ → Exec ℕ
when true m = m
when false m = pure 0

-- What `emit::UDP` does with its socket; the payload is serialised already.
unfoldable pub send : System → Bool → SockT → SockT → Bool → ℕ → List ℕ → ℕ → Exec ℕ
send sys little remote local from_any from_port payload fd = do
  reuse sys fd
  when (emit_multicast little remote && not from_any) (multicast_from sys fd local)
  when (not from_any || not (from_port == 0)) (bind_to sys fd local)
  must sys (setsockopt fd so_broadcast)
  lift (size remote)
  must sys (sendto fd payload remote)

-- `emit::UDP`, on a host of the given order of bytes.
unfoldable pub emit : System → Bool → List ℕ → List ℕ → ℕ → List ℕ → ℕ → Exec ℕ
emit sys little payload to_addr to_port from_addr from_port = do
  remote ← lift (resolve sys to_addr to_port)
  local ← bind_like sys from_addr from_port remote
  fd ← must sys (open_dgram local)
  scoped nothing fd (send sys little remote local (is_empty from_addr) from_port payload fd)
