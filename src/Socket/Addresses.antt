-- ===== src/Socket/Addresses.antt =====
-- src/util/network/resolve.cpp and if_number_from_address.cpp, and the tests on addresses of
-- src/dsl/word/UDP.hpp and src/dsl/word/emit/UDP.hpp.
use nuclear.Base.{
  ℕ, ◌+◌, ◌*◌, ◌/◌, ◌%◌, ◌^◌, ◌≡◌, refl, ap, List, [], ◌∷◌, Option, none, some, Bool, true, false,
  ◌&&◌, ◌==◌, if◌then◌else◌,
}
use nuclear.Network.State.{SockT, ipv4, ipv6, other_family}
use nuclear.Socket.System.{
  System, Interface, no_address, unknown_family, no_interface, Result, ok, err,
}

-- The loop of `resolve`: `p` runs through the list, and the body reads `servinfo`, its head.
-- `target` is `none` while its family is unspecified.
unfoldable pub resolve_loop : SockT → List SockT → Option SockT → Option SockT
resolve_loop servinfo [] target = target
resolve_loop (ipv4 high low port) (p ∷ next) target = some (ipv4 high low port)
resolve_loop (ipv6 a b c d e f g h port) (p ∷ next) target =
    resolve_loop (ipv6 a b c d e f g h port) next (some (ipv6 a b c d e f g h port))
resolve_loop other_family (p ∷ next) target = resolve_loop other_family next target

found : Option SockT → Result SockT
found none = err no_address
found (some target) = ok target

resolved : Option (List SockT) → Result SockT
unfolding found resolve_loop
resolved none = err no_address
resolved (some []) = err no_address
resolved (some (servinfo ∷ next)) = found (resolve_loop servinfo (servinfo ∷ next) none)

unfoldable pub resolve : System → List ℕ → ℕ → Result SockT
unfolding resolved
resolve sys address port = resolved (sys.getaddrinfo address port)

-- An address of a family that the library knows.
unfoldable pub known : SockT → Result SockT
known (ipv4 high low port) = ok (ipv4 high low port)
known (ipv6 a b c d e f g h port) = ok (ipv6 a b c d e f g h port)
known other_family = err no_address

resolve_loop_six :
    (a b c d e f g h port : ℕ) (next : List SockT)
    → resolve_loop (ipv6 a b c d e f g h port) next (some (ipv6 a b c d e f g h port))
      ≡ some (ipv6 a b c d e f g h port)
unfolding resolve_loop
resolve_loop_six a b c d e f g h port [] = refl
resolve_loop_six a b c d e f g h port (p ∷ next) = resolve_loop_six a b c d e f g h port next

resolve_loop_other : (next : List SockT) → resolve_loop other_family next none ≡ none
unfolding resolve_loop
resolve_loop_other [] = refl
resolve_loop_other (p ∷ next) = resolve_loop_other next

-- Only the first address that the system knows for a name counts: it is the result, or there is none
-- when its family is neither IPv4 nor IPv6, whatever addresses follow.
pub resolve_first :
    (sys : System) (address : List ℕ) (port : ℕ) (first : SockT) (rest : List SockT)
    → sys.getaddrinfo address port ≡ some (first ∷ rest)
    → resolve sys address port ≡ known first
unfolding resolve known resolve_loop
resolve_first sys address port (ipv4 high low p) rest answer = rw answer
resolve_first sys address port (ipv6 a b c d e f g h p) rest answer =
    rw answer (ap found (resolve_loop_six a b c d e f g h p rest))
resolve_first sys address port other_family rest answer =
    rw answer (ap found (resolve_loop_other rest))

-- `INADDR_ANY` or `in6addr_any` of the same family, at a port.
unfoldable pub any_like : SockT → ℕ → Result SockT
any_like (ipv4 high low p) port = ok (ipv4 0 0 port)
any_like (ipv6 a b c d e f g h p) port = ok (ipv6 0 0 0 0 0 0 0 0 port)
any_like other_family port = err unknown_family

unfoldable pub same_family : SockT → SockT → Bool
same_family (ipv4 _ _ _) (ipv4 _ _ _) = true
same_family (ipv6 _ _ _ _ _ _ _ _ _) (ipv6 _ _ _ _ _ _ _ _ _) = true
same_family other_family other_family = true
same_family _ _ = false

unfoldable pub is_any6 : SockT → Bool
is_any6 (ipv6 a b c d e f g h port) =
    a == 0 && (b == 0 && (c == 0 && (d == 0 && (e == 0 && (f == 0 && (g == 0 && h == 0))))))
is_any6 _ = false

unfoldable pub same_ip6 : SockT → SockT → Bool
same_ip6 (ipv6 a b c d e f g h p) (ipv6 a' b' c' d' e' f' g' h' p') =
    a == a' && (b == b' && (c == c' && (d == d' && (e == e' && (f == f' && (g == g' && h == h'))))))
same_ip6 _ _ = false

unfoldable pub interface_of : System → SockT → List Interface → Result ℕ
interface_of sys a [] = err no_interface
interface_of sys a (i ∷ is) =
    let rest = interface_of sys a is in
    if same_ip6 i.ip a then ok (sys.if_nametoindex i.name) else rest

unfoldable pub if_number_from_address : System → SockT → Result ℕ
if_number_from_address sys a =
    let search_them = interface_of sys a sys.get_interfaces in
    if is_any6 a then ok 0 else search_them

-- `sin_addr.s_addr` holds the address in network order: its four bytes, read in the order of the host.
unfoldable pub s_addr : Bool → ℕ → ℕ → ℕ
s_addr true high low =
    high / 256 + 2 ^ 8 * (high % 256) + 2 ^ 16 * (low / 256) + 2 ^ 24 * (low % 256)
s_addr false high low = 2 ^ 16 * high + low

-- `ntohl` turns the bytes of a word on a little-endian host.
unfoldable pub ntohl : Bool → ℕ → ℕ
ntohl true w =
    2 ^ 24 * (w % 256) + 2 ^ 16 * (w / 2 ^ 8 % 256) + 2 ^ 8 * (w / 2 ^ 16 % 256) + w / 2 ^ 24 % 256
ntohl false w = w

-- The test of `emit::UDP`, which shifts `s_addr` as it is.
unfoldable pub emit_multicast : Bool → SockT → Bool
unfolding s_addr
emit_multicast little (ipv4 high low port) = s_addr little high low / 2 ^ 28 == 0xE
emit_multicast little (ipv6 a b c d e f g h port) = a / 256 == 0xFF
emit_multicast little other_family = false

-- The test of `UDP::Multicast::get`; the mask keeps the upper four bits.
unfoldable pub get_multicast : Bool → SockT → Bool
unfolding s_addr ntohl
get_multicast little (ipv4 high low port) = ntohl little (s_addr little high low) / 2 ^ 28 == 0xE
get_multicast little (ipv6 a b c d e f g h port) = a / 256 == 0xFF
get_multicast little other_family = false
