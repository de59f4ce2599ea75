-- ===== src/Socket/Quiet.antt =====
-- src/dsl/word/UDP.hpp, TCP.hpp and emit/UDP.hpp: the parts of the words that neither open nor close a
-- descriptor.
use nuclear.Base.{
  ℕ, ◌≡◌, refl, ◌∙◌, List, [], ◌∷◌, Option, none, some, Bool, true, false, if◌then◌else◌,
}
use nuclear.Network.State.{SockT, ipv4, ipv6, other_family}
use nuclear.Socket.System.{
  System, Request, setsockopt, SocketOption, bind_socket, listen, sendto, Event, asked, Result, ok,
  err, Exec, ◌>>=◌, continue, pure, lift, must, must_name, held, opened_by, bound, watching,
}
use nuclear.Socket.Udp
use nuclear.Socket.Udp.{ConnectOptions, ConnectType, unicast, broadcast, multicast}
use nuclear.Socket.Tcp

-- The same descriptors are held, closed by unbinders and watched.
pub record Same (h h' : List Event) : Type 0 where
  pub held_same : held h' ≡ held h
  pub bound_same : bound h' ≡ bound h
  pub watching_same : watching h' ≡ watching h

pub Same-refl : {h : List Event} → Same h h
Same-refl = record { held_same = refl; bound_same = refl; watching_same = refl }

-- A part of a word that opens, closes and hands over nothing, whether it throws or not.
pub record Quiet {A : Type 0} (m : Exec A) : Type 0 where
  pub at : {h₀ : List Event} (h : List Event) → Same h₀ h → Same h₀ (m h).1

pub Quiet-pure : {A : Type 0} (a : A) → Quiet (pure a)
unfolding pure
Quiet-pure a = record { at = λ h s. s }

pub Quiet-lift : {A : Type 0} (r : Result A) → Quiet (lift r)
unfolding lift
Quiet-lift r = record { at = λ h s. s }

pub Quiet-continue :
    {A B : Type 0} (r : Result A) (f : A → Exec B) {h₀ : List Event} (h : List Event)
    → ((a : A) → Quiet (f a))
    → Same h₀ h
    → Same h₀ (continue r f h).1
Quiet-continue (ok a) f h q s = (q a).at h s
Quiet-continue (err e) f h q s = s

pub Quiet-bind :
    {A B : Type 0} (m : Exec A) (f : A → Exec B)
    → Quiet m
    → ((a : A) → Quiet (f a))
    → Quiet (m >>= f)
unfolding ◌>>=◌
Quiet-bind m f qm qf = record {
  at = λ h s. let (r, h') = m h in Quiet-continue r f h' qf (qm.at h s);
}

pub Quiet-if :
    {A : Type 0} (b : Bool) (m n : Exec A) → Quiet m → Quiet n → Quiet (if b then m else n)
Quiet-if true m n p q = p
Quiet-if false m n p q = q

pub asked_same :
    (r : Request) (a : Option ℕ)
    → ((n : ℕ) (xs : List ℕ) → opened_by r n xs ≡ xs)
    → {h₀ : List Event} (h : List Event) → Same h₀ h
    → Same h₀ (asked r a ∷ h)
unfolding held bound watching
asked_same r none o h s = record {
  held_same = s.held_same;
  bound_same = s.bound_same;
  watching_same = s.watching_same;
}
asked_same r (some n) o h s = record {
  held_same = o n (held h) ∙ s.held_same;
  bound_same = s.bound_same;
  watching_same = s.watching_same;
}

pub Quiet-must :
    (sys : System) (r : Request)
    → ((n : ℕ) (xs : List ℕ) → opened_by r n xs ≡ xs)
    → Quiet (must sys r)
unfolding must
Quiet-must sys r o = record { at = λ h s. asked_same r (sys.ask h r) o h s }

pub Quiet-setsockopt :
    (sys : System) (fd : ℕ) (o : SocketOption) → Quiet (must sys (setsockopt fd o))
unfolding opened_by
Quiet-setsockopt sys fd o = Quiet-must sys (setsockopt fd o) (λ n xs. refl)

pub Quiet-bind_socket : (sys : System) (fd : ℕ) (a : SockT) → Quiet (must sys (bind_socket fd a))
unfolding opened_by
Quiet-bind_socket sys fd a = Quiet-must sys (bind_socket fd a) (λ n xs. refl)

pub Quiet-listen : (sys : System) (fd : ℕ) → Quiet (must sys (listen fd))
unfolding opened_by
Quiet-listen sys fd = Quiet-must sys (listen fd) (λ n xs. refl)

pub Quiet-sendto :
    (sys : System) (fd : ℕ) (p : List ℕ) (a : SockT) → Quiet (must sys (sendto fd p a))
unfolding opened_by
Quiet-sendto sys fd p a = Quiet-must sys (sendto fd p a) (λ n xs. refl)

pub Quiet-must_name : (sys : System) (fd : ℕ) → Quiet (must_name sys fd)
unfolding must_name held bound watching
Quiet-must_name sys fd = record {
  at = λ h s. record {
    held_same = s.held_same;
    bound_same = s.bound_same;
    watching_same = s.watching_same;
  };
}

ruleset quiet_rules = (
  Quiet-pure, Quiet-lift, Quiet-bind, Quiet-if, Quiet-setsockopt, Quiet-bind_socket, Quiet-listen,
  Quiet-sendto, Quiet-must_name,
)

pub Quiet-bind_like :
    (sys : System) (name : List ℕ) (port : ℕ) (like : SockT)
    → Quiet (Udp.bind_like sys name port like)
unfolding Udp.bind_like
Quiet-bind_like sys name port like = search quiet_rules

pub Quiet-addresses :
    (sys : System) (o : ConnectOptions) (t : ConnectType) → Quiet (Udp.addresses sys o t)
unfolding Udp.addresses
Quiet-addresses sys o unicast = search quiet_rules
Quiet-addresses sys o broadcast = search quiet_rules
Quiet-addresses sys o multicast = search (quiet_rules, Quiet-bind_like)

pub Quiet-ancillary : (sys : System) (fd : ℕ) (a : SockT) → Quiet (Udp.ancillary sys fd a)
unfolding Udp.ancillary
Quiet-ancillary sys fd (ipv4 _ _ _) = search quiet_rules
Quiet-ancillary sys fd (ipv6 _ _ _ _ _ _ _ _ _) = search quiet_rules
Quiet-ancillary sys fd other_family = search quiet_rules

pub Quiet-reuse : (sys : System) (fd : ℕ) → Quiet (Udp.reuse sys fd)
unfolding Udp.reuse
Quiet-reuse sys fd = search quiet_rules

pub Quiet-bind_to : (sys : System) (fd : ℕ) (a : SockT) → Quiet (Udp.bind_to sys fd a)
unfolding Udp.bind_to
Quiet-bind_to sys fd a = search quiet_rules

pub Quiet-join : (sys : System) (fd : ℕ) (a t : SockT) → Quiet (Udp.join sys fd a t)
unfolding Udp.join
Quiet-join sys fd a (ipv4 _ _ _) = search quiet_rules
Quiet-join sys fd a (ipv6 _ _ _ _ _ _ _ _ _) = search quiet_rules
Quiet-join sys fd a other_family = search quiet_rules

pub Quiet-join_multicast :
    (sys : System) (fd : ℕ) (t : ConnectType) (a b : SockT)
    → Quiet (Udp.join_multicast sys fd t a b)
unfolding Udp.join_multicast
Quiet-join_multicast sys fd unicast a b = search quiet_rules
Quiet-join_multicast sys fd broadcast a b = search quiet_rules
Quiet-join_multicast sys fd multicast a b = Quiet-join sys fd a b

pub Quiet-prepare :
    (sys : System) (o : ConnectOptions) (local target : SockT) (fd : ℕ)
    → Quiet (Udp.prepare sys o local target fd)
unfolding Udp.prepare
Quiet-prepare sys o local target fd =
    search (quiet_rules, Quiet-ancillary, Quiet-reuse, Quiet-bind_to, Quiet-join_multicast) depth 12

pub Quiet-multicast_from : (sys : System) (fd : ℕ) (a : SockT) → Quiet (Udp.multicast_from sys fd a)
unfolding Udp.multicast_from
Quiet-multicast_from sys fd (ipv4 _ _ _) = search quiet_rules
Quiet-multicast_from sys fd (ipv6 _ _ _ _ _ _ _ _ _) = search quiet_rules
Quiet-multicast_from sys fd other_family = search quiet_rules

pub Quiet-when : (b : Bool) (m : Exec ℕ) → Quiet m → Quiet (Udp.when b m)
unfolding Udp.when
Quiet-when true m q = q
Quiet-when false m q = Quiet-pure 0

pub Quiet-send :
    (sys : System) (little : Bool) (remote local : SockT) (from_any : Bool) (from_port : ℕ)
    (payload : List ℕ) (fd : ℕ)
    → Quiet (Udp.send sys little remote local from_any from_port payload fd)
unfolding Udp.send
Quiet-send sys little remote local from_any from_port payload fd =
    search (quiet_rules, Quiet-reuse, Quiet-when, Quiet-multicast_from, Quiet-bind_to) depth 12

pub Quiet-tcp_address :
    (sys : System) (name : List ℕ) (port : ℕ) → Quiet (Tcp.address sys name port)
unfolding Tcp.address
Quiet-tcp_address sys [] port = search quiet_rules
Quiet-tcp_address sys (x ∷ xs) port = search quiet_rules

pub Quiet-tcp_prepare : (sys : System) (a : SockT) (fd : ℕ) → Quiet (Tcp.prepare sys a fd)
unfolding Tcp.prepare
Quiet-tcp_prepare sys a fd = search (quiet_rules, Quiet-bind_to) depth 12
