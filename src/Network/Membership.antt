-- ===== src/Network/Membership.antt =====
-- The branches of `process_packet` of src/extension/network/NUClearNetwork.cpp, against the agreement of
-- the lists of targets.
use nuclear.Base.{
  ℕ, ◌≡◌, refl, subst, List, [], ◌∷◌, Bool, Option, none, some, inl, inr, Bool-cases, get_or, ltb,
}
use nuclear.Network.Outcome.{Outcome, done, ◌>>=◌, >>=-eq-done}
use nuclear.Network.Wire.{
  DataHeader, announce, leave, fragment, ack, nack, Parsed, ignored, short_data, short_ack,
  short_nack, read, is_packet, parse_type,
}
use nuclear.Network.State.{SockT, udp_key, FloatOps, Network}
use nuclear.Network.Targets.{find_key, or_raise}
use nuclear.Network.Data.{receive_data}
use nuclear.Network.Process.{Datagram, handle, short_from, process_packet, process_packets}
use nuclear.Network.Quiet.{
  Agree, Quiet, Calm, Calm-done, Calm-if, Quiet-refl, Quiet-Agree, done_injective,
}
use nuclear.Network.Quiet.Data.{receive_fragment-Calm}
use nuclear.Network.Quiet.Send.{receive_ack-Quiet, receive_nack-Calm}
use nuclear.Network.Peers.{receive_announce-Agree, receive_leave-Agree}

module _ {F : Type 0} where
  Calm-Agree :
      (n m : Network F) (o : Outcome (Network F)) → Calm n o → Agree n → o ≡ done m → Agree m
  Calm-Agree n m o c a h = Quiet-Agree n m (c.quiet m h) a

  receive_data-Calm :
      (remote : Option ℕ) (retransmission : Bool) (h : DataHeader) (chunk : List ℕ) (now : ℕ)
      (n : Network F)
      → Calm n (receive_data remote retransmission h chunk now n)
  unfolding receive_data
  receive_data-Calm none retransmission h chunk now n = Calm-done (Quiet-refl n)
  receive_data-Calm (some id) retransmission h chunk now n =
      Calm-if (ltb h.packet_count h.packet_no) (Calm-done (Quiet-refl n))
        (receive_fragment-Calm id retransmission h chunk now n)

  Quiet-done : (n k m : Network F) → Quiet n k → Agree n → done k ≡ done m → Agree m
  Quiet-done n k m q a h = subst Agree (done_injective h) (Quiet-Agree n k q a)

  handle-Agree :
      (fl : FloatOps F) (key : List ℕ) (address : SockT) (p : Parsed) (now : ℕ) (n m : Network F)
      → Agree n
      → udp_key address ≡ some key
      → handle fl (find_key key n.udp_target) key address p now n ≡ done m
      → Agree m
  unfolding handle
  handle-Agree fl key address ignored now n m a e h = Quiet-done n n m (Quiet-refl n) a h
  handle-Agree fl key address short_data now n m a e h = cc
  handle-Agree fl key address short_ack now n m a e h = short (find_key key n.udp_target) h
    where
      short : (o : Option ℕ) → short_from o n ≡ done m → Agree m
      short none h = Quiet-done n n m (Quiet-refl n) a h
      short (some id) h = cc
  handle-Agree fl key address short_nack now n m a e h = short (find_key key n.udp_target) h
    where
      short : (o : Option ℕ) → short_from o n ≡ done m → Agree m
      short none h = Quiet-done n n m (Quiet-refl n) a h
      short (some id) h = cc
  handle-Agree fl key address (read (announce name)) now n m a e h =
      receive_announce-Agree fl key address name now n m a e h
  handle-Agree fl key address (read leave) now n m a e h = receive_leave-Agree key n m a h
  handle-Agree fl key address (read (fragment retransmission d chunk)) now n m a e h =
      Calm-Agree n m _ (receive_data-Calm _ retransmission d chunk now n) a h
  handle-Agree fl key address (read (ack packet_id number count bits)) now n m a e h =
      known (find_key key n.udp_target) h
    where
      known :
          (o : Option ℕ)
          → handle fl o key address (read (ack packet_id number count bits)) now n ≡ done m
          → Agree m
      known none h = Quiet-done n n m (Quiet-refl n) a h
      known (some id) h = Quiet-done n _ m (receive_ack-Quiet fl id packet_id count bits now n) a h
  handle-Agree fl key address (read (nack packet_id count bits)) now n m a e h =
      known (find_key key n.udp_target) h
    where
      known :
          (o : Option ℕ)
          → handle fl o key address (read (nack packet_id count bits)) now n ≡ done m
          → Agree m
      known none h = Quiet-done n n m (Quiet-refl n) a h
      known (some id) h = Calm-Agree n m _ (receive_nack-Calm id packet_id count bits now n) a h

  -- Whatever datagram arrives from wherever: if the three lists of targets agree before a call of
  -- `process_packet` that returns, they agree after it.
  pub process_packet-Agree :
      (fl : FloatOps F) (d : Datagram) (n m : Network F)
      → Agree n
      → process_packet fl d n ≡ done m
      → Agree m
  unfolding process_packet
  process_packet-Agree fl d n m a h = elim (Bool-cases (is_packet d.bytes)) [
    | inl packet ↦ keyed (udp_key d.from) refl (rw packet at h)
    | inr other ↦ Quiet-done n n m (Quiet-refl n) a (rw other at h)
  ]
    where
      keyed :
          (o : Option (List ℕ))
          → udp_key d.from ≡ o
          → (or_raise o >>= λ key.
              handle fl
                (find_key key n.udp_target)
                key
                d.from
                (parse_type (get_or d.bytes 4 0) d.bytes)
                d.time
                n)
            ≡ done m
          → Agree m
      keyed none e h = cc
      keyed (some key) e h = handle-Agree fl key d.from _ d.time n m a e h

  pub process_packets-Agree :
      (fl : FloatOps F) (ds : List Datagram) (n m : Network F)
      → Agree n
      → process_packets fl ds n ≡ done m
      → Agree m
  unfolding process_packets
  process_packets-Agree fl [] n m a h = Quiet-done n n m (Quiet-refl n) a h
  process_packets-Agree fl (d ∷ ds) n m a h =
      let (k, p, q) = >>=-eq-done (process_packet fl d n) (process_packets fl ds) h in
      process_packets-Agree fl ds k m (process_packet-Agree fl d n k a p) q
