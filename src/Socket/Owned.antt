-- ===== src/Socket/Owned.antt =====
-- src/dsl/word/UDP.hpp, TCP.hpp and emit/UDP.hpp: who closes the sockets that the words open.
use nuclear.Base.{ℕ, ◌≡◌, refl, ◌∙◌, ap, List, ◌∷◌, Option, none, some, Bool, arith}
use nuclear.Socket.System.{
  System, Request, open_dgram, open_stream, Event, asked, Result, ok, err, Exec, ◌>>=◌, continue,
  pure, note, must, answer_of, owned, scoped, unwind, close, Cleanup, nothing, shutdown, erase_fd,
  held, opened_by, bound, watching,
}
use nuclear.Socket.Udp
use nuclear.Socket.Udp.{ConnectOptions, ConnectType, unicast, broadcast, multicast}
use nuclear.Socket.Tcp
use nuclear.Socket.Quiet.{
  Same, Same-refl, Quiet, Quiet-bind, Quiet-addresses, Quiet-prepare, Quiet-lift, Quiet-bind_like,
  Quiet-send, Quiet-tcp_address, Quiet-tcp_prepare,
}

-- What a word leaves that binds a socket.
abbrev pub Outcome : List Event → Result (ℕ × ℕ) × List Event → Type 0
Outcome h₀ (err e, h) = Same h₀ h
Outcome h₀ (ok (port, fd), h) =
    (held h ≡ held h₀) × (bound h ≡ fd ∷ bound h₀) × (watching h ≡ fd ∷ watching h₀)

Outcome-continue :
    {A : Type 0} (f : A → Exec (ℕ × ℕ)) {h₀ : List Event} (r : Result A) (h : List Event)
    → Same h₀ h
    → ((a : A) (h : List Event) → Same h₀ h → Outcome h₀ (f a h))
    → Outcome h₀ (continue r f h)
Outcome-continue f (ok a) h s g = g a h s
Outcome-continue f (err e) h s g = s

Outcome-bind :
    {A : Type 0} (m : Exec A) (f : A → Exec (ℕ × ℕ)) {h₀ : List Event}
    → Quiet m
    → ((a : A) (h : List Event) → Same h₀ h → Outcome h₀ (f a h))
    → Outcome h₀ ((m >>= f) h₀)
unfolding ◌>>=◌
Outcome-bind m f {h₀} q g = let (r, h) = m h₀ in Outcome-continue f r h (q.at h₀ Same-refl) g

erase_first : (fd : ℕ) (xs : List ℕ) → erase_fd fd (fd ∷ xs) ≡ xs
unfolding erase_fd
erase_first fd xs = ground arith

-- A scope holds one descriptor more than at first.
record Holding (fd : ℕ) (h₀ h : List Event) : Type 0 where
  pub held_more : held h ≡ fd ∷ held h₀
  bound_same : bound h ≡ bound h₀
  watching_same : watching h ≡ watching h₀

closes :
    (c : Cleanup) (fd : ℕ) {h₀ : List Event} (h : List Event)
    → Holding fd h₀ h
    → Same h₀ (close c fd h)
unfolding close held bound watching
closes nothing fd {h₀} h k = record {
  held_same = ap (erase_fd fd) k.held_more ∙ erase_first fd (held h₀);
  bound_same = k.bound_same;
  watching_same = k.watching_same;
}
closes shutdown fd {h₀} h k = record {
  held_same = ap (erase_fd fd) k.held_more ∙ erase_first fd (held h₀);
  bound_same = k.bound_same;
  watching_same = k.watching_same;
}

stays : {fd : ℕ} {h₀ h h' : List Event} → Holding fd h₀ h → Same h h' → Holding fd h₀ h'
stays k s = record {
  held_more = s.held_same ∙ k.held_more;
  bound_same = s.bound_same ∙ k.bound_same;
  watching_same = s.watching_same ∙ k.watching_same;
}

hands_over :
    (port fd : ℕ) {h₀ : List Event} (h : List Event)
    → Holding fd h₀ h
    → Outcome h₀ (Udp.hand_over port fd h)
unfolding Udp.hand_over ◌>>=◌ note pure held bound watching
hands_over port fd {h₀} h k = (
  ap (erase_fd fd) k.held_more ∙ erase_first fd (held h₀),
  ap (◌∷◌ fd) k.bound_same,
  ap (◌∷◌ fd) k.watching_same,
)

-- The scope of a `FileDescriptor` up to its release, for what a quiet body came to.
hands_over_unwound :
    (c : Cleanup) (fd : ℕ) {h₀ : List Event} (r : Result ℕ) (h : List Event)
    → Holding fd h₀ h
    → Outcome h₀
        (let (r', h') = unwind c fd (r, h) in continue r' (λ port. Udp.hand_over port fd) h')
hands_over_unwound c fd (ok port) h k = hands_over port fd h k
hands_over_unwound c fd (err e) h k = closes c fd h k

binds :
    (c : Cleanup) (fd : ℕ) (body : Exec ℕ) {h₀ : List Event} (h : List Event)
    → Quiet body
    → Holding fd h₀ h
    → Outcome h₀ ((owned c fd body >>= λ port. Udp.hand_over port fd) h)
unfolding ◌>>=◌ owned
binds c fd body h q k =
    let (r, h') = body h in hands_over_unwound c fd r h' (stays k (q.at h Same-refl))

Holding-opened :
    (r : Request) (fd : ℕ) {h₀ : List Event} (h : List Event)
    → ((n : ℕ) (xs : List ℕ) → opened_by r n xs ≡ n ∷ xs)
    → Same h₀ h
    → Holding fd h₀ (asked r (some fd) ∷ h)
unfolding held bound watching
Holding-opened r fd h o s = record {
  held_more = o fd (held h) ∙ ap (◌∷◌ fd) s.held_same;
  bound_same = s.bound_same;
  watching_same = s.watching_same;
}

refused_same :
    (r : Request) {h₀ : List Event} (h : List Event) → Same h₀ h → Same h₀ (asked r none ∷ h)
unfolding held bound watching
refused_same r h s = record {
  held_same = s.held_same;
  bound_same = s.bound_same;
  watching_same = s.watching_same;
}

-- A call that opens a socket, followed by the scope that owns it.
opens_answered :
    (c : Cleanup) (r : Request) (a : Option ℕ) (body : ℕ → Exec ℕ) {h₀ : List Event}
    (h : List Event)
    → ((n : ℕ) (xs : List ℕ) → opened_by r n xs ≡ n ∷ xs)
    → ((fd : ℕ) → Quiet (body fd))
    → Same h₀ h
    → Outcome h₀ (
        continue
          (answer_of r a)
          (λ fd. owned c fd (body fd) >>= λ port. Udp.hand_over port fd)
          (asked r a ∷ h))
unfolding answer_of
opens_answered c r none body h o q s = refused_same r h s
opens_answered c r (some fd) body {h₀} h o q s =
    binds c fd (body fd) (asked r (some fd) ∷ h) (q fd) (Holding-opened r fd h o s)

opens :
    (sys : System) (c : Cleanup) (r : Request) (body : ℕ → Exec ℕ) {h₀ : List Event}
    (h : List Event)
    → ((n : ℕ) (xs : List ℕ) → opened_by r n xs ≡ n ∷ xs)
    → ((fd : ℕ) → Quiet (body fd))
    → Same h₀ h
    → Outcome h₀ ((must sys r >>= λ fd. owned c fd (body fd) >>= λ port. Udp.hand_over port fd) h)
unfolding ◌>>=◌ must
opens sys c r body h o q s = unfold ◌>>=◌ in opens_answered c r (sys.ask h r) body h o q s

-- However the system answers the calls of `UDP::connect`: when it throws, each descriptor that it opened
-- is closed again, and nothing is bound or watched; when it returns, the descriptor that it returns is
-- the one that the unbinders close besides those before, and that is watched besides, and no scope
-- holds more descriptors than before.
pub connect-Outcome :
    (sys : System) (o : ConnectOptions) (h : List Event) → Outcome h (Udp.connect sys o h)
unfolding Udp.connect
connect-Outcome sys o h =
    Outcome-bind (Udp.addresses sys o o.type) _ (Quiet-addresses sys o o.type)
      λ (local, target) h' s.
        opens sys nothing (open_dgram local) (Udp.prepare sys o local target) h'
          (unfold opened_by in λ n xs. refl) (Quiet-prepare sys o local target) s

-- The same of `TCP::bind`, which shuts its socket down before it closes it.
pub tcp_bind-Outcome :
    (sys : System) (port : ℕ) (name : List ℕ) (h : List Event)
    → Outcome h (Tcp.bind sys port name h)
unfolding Tcp.bind
tcp_bind-Outcome sys port name h =
    Outcome-bind (Tcp.address sys name port) _ (Quiet-tcp_address sys name port) λ a h' s.
      opens sys shutdown (open_stream a) (Tcp.prepare sys a) h' (unfold opened_by in λ n xs. refl)
        (Quiet-tcp_prepare sys a) s

-- The scope of a socket that is never released.
scoped_answered :
    (c : Cleanup) (r : Request) (a : Option ℕ) (body : ℕ → Exec ℕ) {h₀ : List Event}
    (h : List Event)
    → ((n : ℕ) (xs : List ℕ) → opened_by r n xs ≡ n ∷ xs)
    → ((fd : ℕ) → Quiet (body fd))
    → Same h₀ h
    → Same h₀ (continue (answer_of r a) (λ fd. scoped c fd (body fd)) (asked r a ∷ h)).1
unfolding answer_of scoped
scoped_answered c r none body h o q s = refused_same r h s
scoped_answered c r (some fd) body {h₀} h o q s =
    closes c fd (body fd (asked r (some fd) ∷ h)).1
      (stays (Holding-opened r fd h o s) ((q fd).at (asked r (some fd) ∷ h) Same-refl))

Quiet-open :
    (sys : System) (r : Request) (body : ℕ → Exec ℕ)
    → ((n : ℕ) (xs : List ℕ) → opened_by r n xs ≡ n ∷ xs)
    → ((fd : ℕ) → Quiet (body fd))
    → Quiet (must sys r >>= λ fd. scoped nothing fd (body fd))
unfolding ◌>>=◌ must
Quiet-open sys r body o q = record {
  at = λ h s. scoped_answered nothing r (sys.ask h r) body h o q s;
}

-- However the system answers the calls of `emit::UDP`, whether it throws or not: it leaves no descriptor
-- open that was not, and binds and watches nothing.
pub emit-Same :
    (sys : System) (little : Bool) (payload to_addr : List ℕ) (to_port : ℕ) (from_addr : List ℕ)
    (from_port : ℕ) (h : List Event)
    → Same h (Udp.emit sys little payload to_addr to_port from_addr from_port h).1
unfolding Udp.emit
emit-Same sys little payload to_addr to_port from_addr from_port h =
    (Quiet-bind _ _ (Quiet-lift _) (λ remote.
        Quiet-bind _ _ (Quiet-bind_like sys from_addr from_port remote) (λ local.
          Quiet-open sys (open_dgram local) _ (unfold opened_by in λ n xs. refl)
            (Quiet-send sys little remote local (Udp.is_empty from_addr) from_port payload)))).at
      h Same-refl
