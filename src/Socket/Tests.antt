-- ===== src/Socket/Tests.antt =====
-- Sockets on a system that opens descriptor 7 and refuses to listen.
use nuclear.Socket.Descriptor.{Descriptors, construct, move_construct, held, set_held, close, valid}
use nuclear.Socket.Descriptor.Owners.{Reach, no_objects, later, opens, moves, Owned, Reach-Owned}
use nuclear.Base.{ℕ, ◌/◌, ◌%◌, ◌≡◌, refl, [], ◌∷◌, Option, none, some, true, arith}
use nuclear.Network.State.{ipv4, ipv6, other_family}
use nuclear.Socket.System.{
  System, Request, listen, ok, ◌>>=◌, pure, lift, note, must, answer_of, must_name, name_of, owned,
}
use nuclear.Socket.Addresses.{resolve, known, resolve_first, emit_multicast, get_multicast}
use nuclear.Socket.Udp
use nuclear.Socket.Udp.{ConnectOptions, unicast}
use nuclear.Socket.Tcp
use nuclear.Socket.Quiet.{Same}
use nuclear.Socket.Owned.{Outcome, connect-Outcome, tcp_bind-Outcome, emit-Same}
use nuclear.Socket.Faults.{of_class_d, multicast_octets, ReturnsValid, get-ReturnsValid}

abbrev answers : Request → Option ℕ
answers (listen fd) = none
answers _ = some 7

abbrev a_system : System
a_system = record {
  ask = λ h r. answers r;
  getsockname = λ h fd. some (ipv4 0 0 4000);
  getaddrinfo = λ name port. some (ipv6 0 0 0 0 0 0 0 1 port ∷ ipv4 0x7F00 1 port ∷ []);
  get_interfaces = [];
  if_nametoindex = λ name. 0;
}

abbrev to_any : ConnectOptions
to_any = record { type = unicast; bind_address = []; port = 0; target_address = [] }

connected : (Udp.connect a_system to_any []).0 ≡ ok (4000, 7)
unfolding Udp.connect Udp.addresses Udp.is_empty Udp.prepare Udp.ancillary Udp.reuse Udp.bind_to
    Udp.size Udp.join_multicast Udp.port_of Udp.hand_over ◌>>=◌ pure lift note must answer_of
    must_name name_of owned
connected = refl

connect-Outcome_example : Outcome [] (Udp.connect a_system to_any [])
connect-Outcome_example = connect-Outcome a_system to_any []

tcp_bind-Outcome_example : Outcome [] (Tcp.bind a_system 80 [] [])
tcp_bind-Outcome_example = tcp_bind-Outcome a_system 80 [] []

emit-Same_example : Same [] (Udp.emit a_system true (1 ∷ []) [] 80 [] 0 []).1
emit-Same_example = emit-Same a_system true (1 ∷ []) [] 80 [] 0 []

resolve_first_example : resolve a_system [] 80 ≡ known (ipv6 0 0 0 0 0 0 0 1 80)
resolve_first_example =
    resolve_first a_system [] 80 (ipv6 0 0 0 0 0 0 0 1 80) (ipv4 0x7F00 1 80 ∷ []) refl

get-ReturnsValid_example : ReturnsValid (Tcp.get a_system other_family (some 3) []).0
get-ReturnsValid_example = get-ReturnsValid a_system other_family (some 3) []

-- 230.12.3.22, the group of the program's own tests.
multicast_octets_example :
    (get_multicast true (ipv4 0xE60C 0x0316 1) ≡ of_class_d (0xE60C / 256))
    × (emit_multicast true (ipv4 0xE60C 0x0316 1) ≡ of_class_d (0x0316 % 256))
multicast_octets_example = multicast_octets true 0xE60C 0x0316 1 (omega arith) (omega arith)

-- A descriptor that was handed over from one object to another.
abbrev handed_over : Descriptors
handed_over = record { objects = some 3 ∷ none ∷ []; open_fds = 3 ∷ []; released = []; closed = [] }

hands_over : Reach handed_over
unfolding construct move_construct held set_held
hands_over = later (later no_objects (opens 3 (unfold valid in refl))) (moves 0)

Reach-Owned_example :
    Owned handed_over
    × ((i fd : ℕ)
        → held i handed_over.objects ≡ some fd
        → (close i handed_over).closed ≡ fd ∷ handed_over.closed)
Reach-Owned_example = Reach-Owned hands_over
