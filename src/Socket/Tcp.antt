-- ===== src/Socket/Tcp.antt =====
-- src/dsl/word/TCP.hpp: the socket that listens, and the connections that it accepts.
use nuclear.Base.{ℕ, List, [], ◌∷◌, Option, none, some, Bool, true, false}
use nuclear.Network.State.{SockT, ipv4, ipv6, other_family}
use nuclear.Socket.System.{
  System, open_stream, listen, accept, Exec, ◌>>=◌, ◌>>◌, pure, lift, note, must, may, must_name,
  may_name, owned, shutdown, released,
}
use nuclear.Socket.Addresses.{resolve}
use nuclear.Socket.Udp.{bind_to, hand_over}

-- The address that `bind` uses: any of IPv4 when none is given.
unfoldable pub address : System → List ℕ → ℕ → Exec SockT
address sys [] port = pure (ipv4 0 0 port)
address sys (x ∷ xs) port = lift (resolve sys (x ∷ xs) port)

-- The port of the bound address. The name of a socket of another family holds none here.
unfoldable pub bound_port : SockT → ℕ
bound_port (ipv4 high low port) = port
bound_port (ipv6 a b c d e f g h port) = port
bound_port other_family = 0

unfoldable pub prepare : System → SockT → ℕ → Exec ℕ
prepare sys a fd = do
  bind_to sys fd a
  must sys (listen fd)
  name ← must_name sys fd
  pure (bound_port name)

-- `TCP::bind`.
unfoldable pub bind : System → ℕ → List ℕ → Exec (ℕ × ℕ)
bind sys port bind_address = do
  a ← address sys bind_address port
  fd ← must sys (open_stream a)
  bound ← owned shutdown fd (prepare sys a fd)
  hand_over bound fd

-- `Connection`; a descriptor that is `INVALID_SOCKET` is `none`.
pub record Connection : Type 0 where
  pub local : Option SockT
  pub remote : Option SockT
  pub fd : Option ℕ

-- `operator bool`.
unfoldable pub is_valid : Connection → Bool
is_valid c = elim (c.fd) [ none ↦ false | some fd ↦ true ]

-- `Connection{}`: its members are initialised to zero, the descriptor too.
abbrev pub no_connection : Connection
no_connection = record { local = none; remote = none; fd = some 0 }

unfoldable pub accepted : System → SockT → Option ℕ → Exec Connection
accepted sys remote none = pure no_connection
accepted sys remote (some fd) = do
  local ← may_name sys fd
  note (released fd)
  pure (record { local = local; remote = some remote; fd = some fd })

-- `TCP::get` with the event of the thread, if any; `remote` is what `accept` writes. After a refusal
-- `getsockname` is called on no descriptor, which changes nothing.
unfoldable pub get : System → SockT → Option ℕ → Exec Connection
get sys remote none = pure no_connection
get sys remote (some event_fd) = do fd ← may sys (accept event_fd); accepted sys remote fd
