-- ===== src/Socket/Faults.antt =====
-- src/dsl/word/TCP.hpp and src/dsl/word/emit/UDP.hpp: a connection that failed, and a multicast.
use nuclear.Base.{
  ℕ, ◌/◌, ◌%◌, ◌^◌, ◌<◌, ◌≡◌, refl, List, Option, none, some, Bool, true, false, ◌&&◌, leb, ltb,
  arith,
}
use nuclear.Network.State.{SockT, ipv4}
use nuclear.Socket.System.{System, Event, accept, Result, ok, ◌>>=◌, pure, note, may, may_name}
use nuclear.Socket.Addresses.{emit_multicast, get_multicast}
use nuclear.Socket.Tcp.{Connection, is_valid, accepted, get}

-- A connection that the word came to counts as valid.
abbrev pub ReturnsValid : Result Connection → Type 0
ReturnsValid (ok c) = is_valid c ≡ true
ReturnsValid _ = ⊥

accepted-ReturnsValid :
    (sys : System) (remote : SockT) (fd : Option ℕ) (h : List Event)
    → ReturnsValid (accepted sys remote fd h).0
unfolding accepted ◌>>=◌ pure may_name note is_valid
accepted-ReturnsValid sys remote none h = refl
accepted-ReturnsValid sys remote (some fd) h = refl

-- `TCP::get` always comes to a connection that counts as valid: also without an event, and also when the
-- system refuses to accept.
pub get-ReturnsValid :
    (sys : System) (remote : SockT) (event : Option ℕ) (h : List Event)
    → ReturnsValid (get sys remote event h).0
unfolding get ◌>>=◌ pure may is_valid
get-ReturnsValid sys remote none h = refl
get-ReturnsValid sys remote (some fd) h = accepted-ReturnsValid sys remote (sys.ask h (accept fd)) _

-- A first octet of 224 to 239, or the same of another octet.
unfoldable pub of_class_d : ℕ → Bool
of_class_d octet = leb 224 octet && ltb octet 240

-- `UDP::Multicast::get` tests the first octet of an IPv4 address, whatever the order of bytes of the
-- host; `emit::UDP` on a little-endian host tests the last one.
pub multicast_octets :
    (little : Bool) (high low port : ℕ)
    → high < 2 ^ 16
    → low < 2 ^ 16
    → (get_multicast little (ipv4 high low port) ≡ of_class_d (high / 256))
      × (emit_multicast true (ipv4 high low port) ≡ of_class_d (low % 256))
unfolding get_multicast emit_multicast of_class_d
multicast_octets true high low port p q = (ground arith, ground arith)
multicast_octets false high low port p q = (ground arith, ground arith)
