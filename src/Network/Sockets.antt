-- ===== src/Network/Sockets.antt =====
-- src/extension/network/NUClearNetwork.cpp: the two sockets of the network, which `reset` opens and
-- `shutdown` closes, over the system of Socket. The members keep a descriptor whatever is thrown later.
use nuclear.Base.{
  ℕ, ◌<◌, ◌≡◌, refl, ap, ◌∙◌, List, [], ◌∷◌, ◌++◌, Option, none, some, Bool, ltb, lt→ltb,
  if◌then◌else◌, arith,
}
use nuclear.Network.State.{SockT, ipv4, ipv6, other_family}
use nuclear.Socket.System.{
  System, Request, open_dgram, setsockopt, so_broadcast, Event, asked, closed, refused, Result, ok,
  err, Exec, ◌>>◌, must, held, opened_by, erase_fd,
}
use nuclear.Socket.Addresses.{get_multicast}
use nuclear.Socket.Udp.{reuse, bind_to, join, when}
use nuclear.Socket.Quiet.{
  Same-refl, Quiet, Quiet-bind, Quiet-setsockopt, Quiet-bind_to, Quiet-reuse, Quiet-join,
  Quiet-when,
}

-- `open_data` binds to any port of the address.
unfoldable pub any_port : SockT → SockT
any_port (ipv4 high low port) = ipv4 high low 0
any_port (ipv6 a b c d e f g h port) = ipv6 a b c d e f g h 0
any_port other_family = other_family

-- `socket`, whose answer goes to the member before it is tested, and the calls that follow.
unfoldable pub started :
    Request → (ℕ → Exec ℕ) → Option ℕ → List Event → Option ℕ × (Result ℕ × List Event)
started r body none h = (none, (err (refused r), asked r none ∷ h))
started r body (some fd) h = (some fd, body fd (asked r (some fd) ∷ h))

unfoldable pub data_options : System → SockT → ℕ → Exec ℕ
data_options sys a fd = do must sys (setsockopt fd so_broadcast); bind_to sys fd a

unfoldable pub open_data : System → SockT → List Event → Option ℕ × (Result ℕ × List Event)
open_data sys bind_address h =
    let a = any_port bind_address in
    started (open_dgram a) (data_options sys a) (sys.ask h (open_dgram a)) h

unfoldable pub announce_options : System → Bool → SockT → SockT → ℕ → Exec ℕ
announce_options sys little announce_target bind_address fd = do
  reuse sys fd
  must sys (setsockopt fd so_broadcast)
  bind_to sys fd bind_address
  when (get_multicast little announce_target) (join sys fd bind_address announce_target)

unfoldable pub open_announce :
    System → Bool → SockT → SockT → List Event → Option ℕ × (Result ℕ × List Event)
open_announce sys little announce_target bind_address h =
    started (open_dgram bind_address) (announce_options sys little announce_target bind_address)
      (sys.ask h (open_dgram bind_address)) h

-- The members `data_fd` and `announce_fd`.
pub record Fds : Type 0 where
  pub data_fd : Option ℕ
  pub announce_fd : Option ℕ

abbrev then_announce :
    Option ℕ
    → Result ℕ × List Event
    → (List Event → Option ℕ × (Result ℕ × List Event))
    → Fds × List Event
then_announce fd (err e, h) rest = (record { data_fd = fd; announce_fd = none }, h)
then_announce fd (ok n, h) rest =
    let (announce, (r, h')) = rest h in (record { data_fd = fd; announce_fd = announce }, h')

-- The end of `reset`, with both members unset by its `shutdown`: what they hold afterwards, whether it
-- throws or not.
unfoldable pub open_sockets : System → Bool → SockT → SockT → List Event → Fds × List Event
open_sockets sys little announce_target bind_address h =
    let (fd, end) = open_data sys bind_address h in
    then_announce fd end (open_announce sys little announce_target bind_address)

-- The part of `shutdown` that closes the sockets.
unfoldable pub close_fd : Option ℕ → List Event → List Event
close_fd none h = h
close_fd (some fd) h = if ltb 0 fd then closed fd ∷ h else h

unfoldable pub close_sockets : Fds → List Event → List Event
close_sockets fds h = close_fd fds.announce_fd (close_fd fds.data_fd h)

abbrev listed : Option ℕ → List ℕ
listed none = []
listed (some fd) = fd ∷ []

abbrev Positive : Option ℕ → Type 0
Positive none = Unit {0}
Positive (some fd) = 0 < fd

-- The member holds what is open besides, and is above 0.
record Kept (fd : Option ℕ) (h h' : List Event) : Type 0 where
  pub held_kept : held h' ≡ listed fd ++ held h
  pub positive : Positive fd

started-Kept :
    (a : SockT) (body : ℕ → Exec ℕ) (answer : Option ℕ) (h : List Event)
    → ((fd : ℕ) → Quiet (body fd))
    → Positive answer
    → (let (fd, (r, h')) = started (open_dgram a) body answer h in Kept fd h h')
unfolding started
started-Kept a body none h q p = record { held_kept = unfold held in refl; positive = p }
started-Kept a body (some fd) h q p = record {
  held_kept =
      ((q fd).at (asked (open_dgram a) (some fd) ∷ h) Same-refl).held_same
      ∙ unfold held opened_by in refl;
  positive = p;
}

Quiet-data_options : (sys : System) (a : SockT) (fd : ℕ) → Quiet (data_options sys a fd)
unfolding data_options
Quiet-data_options sys a fd = search (Quiet-bind, Quiet-setsockopt, Quiet-bind_to)

Quiet-announce_options :
    (sys : System) (little : Bool) (target a : SockT) (fd : ℕ)
    → Quiet (announce_options sys little target a fd)
unfolding announce_options
Quiet-announce_options sys little target a fd =
    search (Quiet-bind, Quiet-setsockopt, Quiet-bind_to, Quiet-reuse, Quiet-when, Quiet-join)

-- What both members hold is open besides.
record BothKept (fds : Fds) (h h' : List Event) : Type 0 where
  pub held_kept : held h' ≡ listed fds.announce_fd ++ (listed fds.data_fd ++ held h)
  pub data_positive : Positive fds.data_fd
  pub announce_positive : Positive fds.announce_fd

then_announce-BothKept :
    (fd : Option ℕ) (r : Result ℕ) (h₀ h : List Event)
    (rest : List Event → Option ℕ × (Result ℕ × List Event))
    → Kept fd h₀ h
    → Kept (rest h).0 h (rest h).1.1
    → BothKept (then_announce fd (r, h) rest).0 h₀ (then_announce fd (r, h) rest).1
then_announce-BothKept fd (err e) h₀ h rest k l = record {
  held_kept = k.held_kept;
  data_positive = k.positive;
  announce_positive = tt;
}
then_announce-BothKept fd (ok n) h₀ h rest k l = record {
  held_kept = l.held_kept ∙ ap (λ xs. listed (rest h).0 ++ xs) k.held_kept;
  data_positive = k.positive;
  announce_positive = l.positive;
}

abbrev without : Option ℕ → List ℕ → List ℕ
without none xs = xs
without (some fd) xs = erase_fd fd xs

held-close_fd :
    (fd : Option ℕ) (h : List Event) → Positive fd → held (close_fd fd h) ≡ without fd (held h)
unfolding close_fd held
held-close_fd none h p = refl
held-close_fd (some fd) h p = rw (lt→ltb 0 fd p) refl

without_both :
    (a d : Option ℕ) (xs : List ℕ) → without a (without d (listed a ++ (listed d ++ xs))) ≡ xs
unfolding erase_fd
without_both none none xs = refl
without_both (some a) none xs = ground arith
without_both none (some d) xs = ground arith
without_both (some a) (some d) xs = ground arith

closes_kept :
    (fds : Fds) (h h' : List Event) → BothKept fds h h' → held (close_sockets fds h') ≡ held h
unfolding close_sockets
closes_kept fds h h' k =
    held-close_fd fds.announce_fd (close_fd fds.data_fd h') k.announce_positive
    ∙ ap (without fds.announce_fd) (held-close_fd fds.data_fd h' k.data_positive)
    ∙ ap (λ xs. without fds.announce_fd (without fds.data_fd xs)) k.held_kept
    ∙ without_both fds.announce_fd fds.data_fd (held h)

Positive-answer :
    (sys : System)
    → ((h : List Event) (a : SockT) (fd : ℕ) → sys.ask h (open_dgram a) ≡ some fd → 0 < fd)
    → (h : List Event) (a : SockT) (answer : Option ℕ) → sys.ask h (open_dgram a) ≡ answer
    → Positive answer
Positive-answer sys above h a none e = tt
Positive-answer sys above h a (some fd) e = above h a fd e

-- As long as the descriptor 0 is in use, so that the system never gives it out: whatever fails while
-- `reset` opens the two sockets, the members hold what is open, and closing them as the next
-- `shutdown` does leaves open just what was open before.
pub close_sockets-open_sockets :
    (sys : System)
    → ((h : List Event) (a : SockT) (fd : ℕ) → sys.ask h (open_dgram a) ≡ some fd → 0 < fd)
    → (little : Bool) (announce_target bind_address : SockT) (h : List Event)
    → (let (fds, h') = open_sockets sys little announce_target bind_address h in
        held (close_sockets fds h') ≡ held h)
unfolding open_sockets open_data open_announce
close_sockets-open_sockets sys above little target a h =
    let (fd, (r, h')) =
      started (open_dgram (any_port a)) (data_options sys (any_port a))
        (sys.ask h (open_dgram (any_port a))) h in
    closes_kept _ h _ (
      then_announce-BothKept fd r h h' (open_announce sys little target a)
        (started-Kept (any_port a) (data_options sys (any_port a)) _ h
          (Quiet-data_options sys (any_port a)) (Positive-answer sys above h (any_port a) _ refl))
        (started-Kept a (announce_options sys little target a) _ h'
          (Quiet-announce_options sys little target a) (Positive-answer sys above h' a _ refl)))
