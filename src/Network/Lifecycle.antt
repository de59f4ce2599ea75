-- ===== src/Network/Lifecycle.antt =====
-- `reset`, and `process` with the removal of silent targets, of
-- src/extension/network/NUClearNetwork.cpp, against the agreement of the lists of targets.
use nuclear.Base.{
  ℕ, ◌+◌, ◌≡◌, refl, sym, ap, ◌∙◌, subst, List, [], ◌∷◌, Bool, true, false, ◌&&◌, Option, some, ltb,
  ◌==◌, if◌then◌else◌, arith, inl, inr, Bool-cases, Option-cases,
}
use nuclear.Network.Outcome.{done, ◌>>=◌, >>=-eq-done}
use nuclear.Network.Wire.{Packet, announce}
use nuclear.Network.State.{
  SockT, udp_key, FloatOps, NetworkTarget, Network, PacketQueue, contains, emit, leave_callback,
  next_event_callback,
}
use nuclear.Network.Targets.{erase_target, remove_target, add_target, new_target, find_key}
use nuclear.Network.Targets.Listed.{Listed}
use nuclear.Network.Send.{retransmit, named}
use nuclear.Network.Process.{
  Datagram, milliseconds, behind_first, timed_out, remove_all, report_left, retransmit_due, process,
  process_packets, reset, shutdown, bind_matches, data_mtu, announce_due, announce_all, send_each,
}
use nuclear.Network.Quiet.{
  Agree, Quiet, Quiet-refl, Quiet-trans, Quiet-Agree, emit-Quiet, send_to-Quiet, done_injective,
}
use nuclear.Network.Quiet.Send.{retransmit-Quiet}
use nuclear.Network.Peers.{remove_target_lem, add_target-Agree}
use nuclear.Network.Membership.{process_packets-Agree}

-- No number twice.
abbrev Distinct : List ℕ → Type 0
Distinct [] = Unit {0}
Distinct (x ∷ xs) = (contains x xs ≡ false) × Distinct xs

contains-erase_target :
    (j id : ℕ) (ids : List ℕ)
    → (j == id) ≡ false
    → contains j ids ≡ true
    → contains j (erase_target id ids) ≡ true
unfolding erase_target contains
contains-erase_target j id [] ne h = h
contains-erase_target j id (x ∷ ids) ne h = ground (arith, contains-erase_target j id ids)

listed_behind :
    (j : ℕ) (ids : List ℕ) → contains j (behind_first ids) ≡ true → contains j ids ≡ true
unfolding contains
listed_behind j [] h = h
listed_behind j (x ∷ ids) h = ground arith

behind-Distinct : (ids : List ℕ) → Distinct ids → Distinct (behind_first ids)
behind-Distinct [] d = tt
behind-Distinct (x ∷ ids) d = d.1

module _ {F : Type 0} where
  Listed-Distinct :
      (h : ℕ → NetworkTarget F) (bound : ℕ) (ids : List ℕ) (us ns : List (List ℕ × ℕ))
      → Listed h bound ids us ns
      → Distinct ids
  Listed-Distinct h bound [] us ns l = tt
  Listed-Distinct h bound (x ∷ ids) ((k, i) ∷ us) ((name, j) ∷ ns) l =
      (l.5, Listed-Distinct h bound ids us ns l.7)
  Listed-Distinct h bound (x ∷ ids) [] ns l = absurd l
  Listed-Distinct h bound (x ∷ ids) (u ∷ us) [] l = absurd l

  timed_out-contains :
      (now j : ℕ) (ids : List ℕ) (n : Network F)
      → contains j (timed_out now ids n) ≡ true
      → contains j ids ≡ true
  unfolding timed_out contains
  timed_out-contains now j [] n h = h
  timed_out-contains now j (x ∷ ids) n h = ground (arith, timed_out-contains now j ids n)

  timed_out-Distinct :
      (now : ℕ) (ids : List ℕ) (n : Network F) → Distinct ids → Distinct (timed_out now ids n)
  unfolding timed_out
  timed_out-Distinct now [] n d = tt
  timed_out-Distinct now (x ∷ ids) n d =
      ground (arith, timed_out-Distinct now ids n d.1, timed_out-contains now x ids n)

  targets-remove_target :
      (id : ℕ) (n m : Network F)
      → remove_target id n ≡ done m
      → m.targets ≡ erase_target id n.targets
  unfolding remove_target
  targets-remove_target id n m e = elim (Option-cases (udp_key (n.heap id).target)) [
    | inl p ↦ cc (rw (p, remove_target) at e)
    | inr (k, p) ↦ ap (λ x. x.targets) (sym (done_injective (rw (p, remove_target) at e)))
  ]

  remove_all-Agree :
      (ids : List ℕ) (n m : Network F)
      → Agree n
      → Distinct ids
      → ((j : ℕ) → contains j ids ≡ true → contains j n.targets ≡ true)
      → remove_all ids n ≡ done m
      → Agree m
  unfolding remove_all contains
  remove_all-Agree [] n m a d known e = subst Agree (done_injective e) a
  remove_all-Agree (id ∷ ids) n m a d known e =
      let (k, p, q) = >>=-eq-done (remove_target id n) (remove_all ids) e in
      let (k', removed, agree, gone) = remove_target_lem id n a (known id (ground arith)) in
      let same : k' ≡ k = done_injective (sym removed ∙ p) in
      remove_all-Agree ids k m (subst Agree same agree) d.1
        (λ j c.
          rw (targets-remove_target id n k p)
            (contains-erase_target j id n.targets (ground (arith, d.0)) (known j (ground arith))))
        q

  -- A network that has been reset knows the announce address alone, in agreement of its lists, and
  -- has nothing to send again.
  pub reset-Agree :
      (fl : FloatOps F) (name : List ℕ) (announce_target : SockT) (bind : Option SockT)
      (network_mtu : ℕ) (opens : Bool) (now : ℕ) (n m : Network F)
      → reset fl name announce_target bind network_mtu opens now n ≡ done m
      → Agree m × (m.send_queue ≡ [])
  unfolding reset new_target add_target find_key
  reset-Agree fl name announce_target bind network_mtu opens now n m e =
      elim (Bool-cases (bind_matches bind announce_target && opens)) [
        | inr c ↦ cc (rw (c, reset) at e)
        | inl c ↦ elim (Option-cases (udp_key announce_target)) [
          | inl p ↦ cc (rw (c, p, reset) at e)
          | inr (key, p) ↦
              let emptied : Network F = record (shutdown n) {
                connected = true;
                send_queue = [];
                name_target = [];
                targets = [];
                udp_target = [];
                packet_data_mtu = data_mtu network_mtu;
                announce_name = name;
              } in
              let same : add_target key (new_target fl [] announce_target now) emptied ≡ m =
                done_injective (rw (c, p, reset) at e) in
              (
                subst Agree same
                    (add_target-Agree key (new_target fl [] announce_target now) emptied tt p refl),
                sym (ap (λ x. x.send_queue) same),
              )
        ]
      ]

  send_each-Quiet : (p : Packet) (ids : List ℕ) (n : Network F) → Quiet n (send_each p ids n)
  unfolding send_each
  send_each-Quiet p [] n = Quiet-refl n
  send_each-Quiet p (id ∷ ids) n = Quiet-trans (send_to-Quiet id p n) (send_each-Quiet p ids _)

  report_left-Quiet : (ids : List ℕ) (n : Network F) → Quiet n (report_left ids n)
  unfolding report_left
  report_left-Quiet [] n = Quiet-refl n
  report_left-Quiet (id ∷ ids) n =
      Quiet-trans (emit-Quiet (leave_callback id) n) (report_left-Quiet ids _)

  retransmit_due-Agree : (now : ℕ) (n : Network F) → Agree n → Agree (retransmit_due now n)
  retransmit_due-Agree now n a = go n.send_queue
    where
      go :
          (q : List (ℕ × PacketQueue))
          → Agree (elim q as (λ _. Network F) [ [] ↦ n | _ ∷ _ ↦ retransmit now n ])
      go [] = a
      go (x ∷ q) = Quiet-Agree n _ (retransmit-Quiet now n) a

  bump-Agree :
      (b : Bool) (next : ℕ) (k : Network F)
      → Agree k
      → Agree (if b then emit (next_event_callback next) (record k { next_event = next }) else k)
  bump-Agree true next k a =
      Quiet-Agree (record k { next_event = next }) _ (emit-Quiet (next_event_callback next) _) a
  bump-Agree false next k a = a

  announce_due-Agree :
      (sends : Bool) (now : ℕ) (n m : Network F)
      → Agree n
      → announce_due sends now n ≡ done m
      → Agree m
  unfolding announce_due announce_all
  announce_due-Agree sends now n m a e =
      elim (Bool-cases (ltb (n.last_announce + milliseconds 500) now)) [
        | inr c ↦ subst Agree (done_injective (rw (c, announce_due) at e)) a
        | inl c ↦ due sends (rw (c, announce_due) at e)
      ]
    where
      greeted : Network F
      greeted =
          send_each (announce (some n.announce_name)) (named [] n.name_target)
            (record n { last_announce = now })

      due :
          (b : Bool)
          → (announce_all b (record n { last_announce = now }) >>= λ k.
              let next = now + milliseconds 500 in
              done (
                if ltb k.next_event next
                then emit (next_event_callback next) (record k { next_event = next })
                else k))
            ≡ done m
          → Agree m
      due false h = cc
      due true h = subst Agree (done_injective h) (
          bump-Agree _ (now + milliseconds 500) greeted
            (Quiet-Agree (record n { last_announce = now }) greeted (send_each-Quiet _ _ _) a))

  -- Whatever has timed out and whatever datagrams wait on the two sockets: if the lists of targets
  -- agree before a call of `process` that returns, they agree after it.
  pub process-Agree :
      (fl : FloatOps F) (sends : Bool) (now : ℕ) (announced received : List Datagram)
      (n m : Network F)
      → Agree n
      → process fl sends now announced received n ≡ done m
      → Agree m
  unfolding process
  process-Agree fl sends now announced received n m a e =
      let (x, p, e1) = >>=-eq-done (announce_due sends now n) _ e in
      let ax : Agree x = announce_due-Agree sends now n x a p in
      let (y, q, e2) = >>=-eq-done (remove_all (timed_out now (behind_first x.targets) x) x) _ e1 in
      let ay : Agree y =
        remove_all-Agree (timed_out now (behind_first x.targets) x) x y ax
          (timed_out-Distinct now (behind_first x.targets) x (
            behind-Distinct x.targets
              (Listed-Distinct x.heap x.next_target x.targets x.udp_target x.name_target ax)))
          (λ j c. listed_behind j x.targets (timed_out-contains now j (behind_first x.targets) x c))
          q in
      let left : Network F = report_left (timed_out now (behind_first x.targets) x) y in
      let al : Agree left = Quiet-Agree y left (report_left-Quiet _ y) ay in
      let (z, r, e3) = >>=-eq-done (process_packets fl announced (retransmit_due now left)) _ e2 in
      process_packets-Agree fl received z m
        (process_packets-Agree fl announced (retransmit_due now left) z
          (retransmit_due-Agree now left al) r)
        e3
