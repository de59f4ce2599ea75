-- ===== src/Socket/System.antt =====
-- The calls to the system that the words make, and src/util/FileDescriptor.cpp. What happened so far
-- is a list, the latest first, and the system is a parameter that answers each call from it. A
-- descriptor that `valid` refuses is `none`: `fcntl` knows just those that the system opened.
use nuclear.Base.{ℕ, List, [], ◌∷◌, Option, none, some, Bool, ◌==◌, if◌then◌else◌}
use nuclear.Network.State.{SockT}

pub data SocketOption : Type 0 where
  ip_pktinfo : SocketOption
  ipv6_recvpktinfo : SocketOption
  so_reuseaddr : SocketOption
  so_reuseport : SocketOption
  ip_add_membership : SockT → SockT → SocketOption
  ip_multicast_if : SockT → SocketOption
  ipv6_join_group : SockT → ℕ → SocketOption
  ipv6_multicast_if : ℕ → SocketOption
  so_broadcast : SocketOption

-- A call that may fail; the descriptors are the answers of the calls that open them.
pub data Request : Type 0 where
  open_dgram : SockT → Request
  open_stream : SockT → Request
  setsockopt : ℕ → SocketOption → Request
  bind_socket : ℕ → SockT → Request
  listen : ℕ → Request
  accept : ℕ → Request
  sendto : ℕ → List ℕ → SockT → Request

pub data Event : Type 0 where
  asked : Request → Option ℕ → Event
  named : ℕ → Option SockT → Event
  closed : ℕ → Event
  shut_down : ℕ → Event
  released : ℕ → Event
  unbinder : ℕ → Event
  watched : ℕ → Event

-- An interface of the system: the parts of `Interface` that the words read.
pub record Interface : Type 0 where
  pub name : List ℕ
  pub ip : SockT
  pub broadcast : SockT
  pub is_broadcast : Bool

pub record System : Type 0 where
  pub ask : List Event → Request → Option ℕ
  pub getsockname : List Event → ℕ → Option SockT
  pub getaddrinfo : List ℕ → ℕ → Option (List SockT)
  pub get_interfaces : List Interface
  pub if_nametoindex : List ℕ → ℕ

pub data Error : Type 0 where
  refused : Request → Error
  unnamed : Error
  no_address : Error
  unknown_family : Error
  families_differ : Error
  no_interface : Error

pub data Result {ℓ} (A : Type ℓ) : Type ℓ where
  ok : A → Result A
  err : Error → Result A

abbrev pub Exec : Type 0 → Type 0
Exec A = List Event → Result A × List Event

abbrev pub continue : {A B : Type 0} → Result A → (A → Exec B) → Exec B
continue (ok a) f h = f a h
continue (err e) f h = (err e, h)

infixl 5 ◌>>=◌ ◌>>◌
unfoldable pub ◌>>=◌ : {A B : Type 0} → Exec A → (A → Exec B) → Exec B
◌>>=◌ m f h = let (r, h') = m h in continue r f h'

abbrev pub ◌>>◌ : {A B : Type 0} → Exec A → Exec B → Exec B
m >> n = m >>= λ _. n

unfoldable pub pure : {A : Type 0} → A → Exec A
pure a h = (ok a, h)

unfoldable pub lift : {A : Type 0} → Result A → Exec A
lift r h = (r, h)

unfoldable pub note : Event → Exec (Unit {0})
note e h = (ok tt, e ∷ h)

unfoldable pub answer_of : Request → Option ℕ → Result ℕ
answer_of r none = err (refused r)
answer_of r (some n) = ok n

-- A call that is followed by a throw where it fails.
unfoldable pub must : System → Request → Exec ℕ
unfolding answer_of
must sys r h = (answer_of r (sys.ask h r), asked r (sys.ask h r) ∷ h)

-- A call whose failure is seen in its answer only.
unfoldable pub may : System → Request → Exec (Option ℕ)
may sys r h = (ok (sys.ask h r), asked r (sys.ask h r) ∷ h)

unfoldable pub name_of : Option SockT → Result SockT
name_of none = err unnamed
name_of (some a) = ok a

unfoldable pub must_name : System → ℕ → Exec SockT
unfolding name_of
must_name sys fd h = (name_of (sys.getsockname h fd), named fd (sys.getsockname h fd) ∷ h)

unfoldable pub may_name : System → ℕ → Exec (Option SockT)
may_name sys fd h = (ok (sys.getsockname h fd), named fd (sys.getsockname h fd) ∷ h)

-- The clean-up that a `FileDescriptor` runs before it closes: none, or a shutdown.
pub data Cleanup : Type 0 where
  nothing : Cleanup
  shutdown : Cleanup

-- `FileDescriptor::close` of a valid descriptor.
unfoldable pub close : Cleanup → ℕ → List Event → List Event
close nothing fd h = closed fd ∷ h
close shutdown fd h = closed fd ∷ shut_down fd ∷ h

-- The rest of a scope that holds a `FileDescriptor`, up to its release: an exception runs the destructor.
abbrev pub unwind : {A : Type 0} → Cleanup → ℕ → Result A × List Event → Result A × List Event
unwind c fd (ok a, h) = (ok a, h)
unwind c fd (err e, h) = (err e, close c fd h)

unfoldable pub owned : {A : Type 0} → Cleanup → ℕ → Exec A → Exec A
owned c fd m h = unwind c fd (m h)

-- The rest of a scope that does not release: the destructor runs either way.
unfoldable pub scoped : {A : Type 0} → Cleanup → ℕ → Exec A → Exec A
scoped c fd m h = let (r, h') = m h in (r, close c fd h')

unfoldable pub erase_fd : ℕ → List ℕ → List ℕ
erase_fd fd [] = []
erase_fd fd (x ∷ xs) = if x == fd then xs else x ∷ erase_fd fd xs

unfoldable pub opened_by : Request → ℕ → List ℕ → List ℕ
opened_by (open_dgram a) fd xs = fd ∷ xs
opened_by (open_stream a) fd xs = fd ∷ xs
opened_by (accept l) fd xs = fd ∷ xs
opened_by _ fd xs = xs

-- The descriptors that are open and that only a scope holds.
unfoldable pub held : List Event → List ℕ
unfolding opened_by
held [] = []
held (asked r none ∷ h) = held h
held (asked r (some n) ∷ h) = opened_by r n (held h)
held (closed fd ∷ h) = erase_fd fd (held h)
held (unbinder fd ∷ h) = erase_fd fd (held h)
held (released fd ∷ h) = erase_fd fd (held h)
held (named fd a ∷ h) = held h
held (shut_down fd ∷ h) = held h
held (watched fd ∷ h) = held h

-- The descriptors that an unbinder of the reaction closes, and those that the controller for IO watches.
unfoldable pub bound : List Event → List ℕ
bound [] = []
bound (unbinder fd ∷ h) = fd ∷ bound h
bound (e ∷ h) = bound h

unfoldable pub watching : List Event → List ℕ
watching [] = []
watching (watched fd ∷ h) = fd ∷ watching h
watching (e ∷ h) = watching h
