-- ===== src/Network/Quiet.antt =====
-- What the handling of data, acknowledgements and timeouts in
-- src/extension/network/NUClearNetwork.cpp leaves alone: the lists of targets, and the addresses and
-- names of the targets.
pub mod Data
pub mod Send
use nuclear.Base.{
  ℕ, zero, suc, ◌+◌, ◌≡◌, refl, sym, ◌∙◌, List, [], ◌∷◌, Bool, true, false, Option, none, some,
  ◌==◌, if◌then◌else◌, arith, ltb, inl, inr, Bool-cases, ◌⊎◌,
}
use nuclear.Network.Outcome.{Outcome, done, raised, fault, hangs, ◌>>=◌, >>=-eq-done}
use nuclear.Network.Wire.{Packet}
use nuclear.Network.State.{
  SockT, NetworkTarget, Event, Network, emit, send_to, touch, modify, update, earlier_event,
  next_event_callback,
}
use nuclear.Network.Targets.Listed.{Listed, Listed-heap}

-- The lists of targets agree.
abbrev pub Agree : {F : Type 0} → Network F → Type 0
Agree n = Listed n.heap n.next_target n.targets n.udp_target n.name_target

pub done_injective : {A : Type 0} {x y : A} → done x ≡ done y → x ≡ y
done_injective e = cc

module _ {F : Type 0} where
  pub record Quiet (n m : Network F) : Type 0 where
    pub targets : m.targets ≡ n.targets
    pub udp : m.udp_target ≡ n.udp_target
    pub names : m.name_target ≡ n.name_target
    pub next : m.next_target ≡ n.next_target
    pub addresses : (i : ℕ) → (m.heap i).target ≡ (n.heap i).target
    pub labels : (i : ℕ) → (m.heap i).name ≡ (n.heap i).name

  pub Quiet-refl : (n : Network F) → Quiet n n
  Quiet-refl n = record {
    targets = refl;
    udp = refl;
    names = refl;
    next = refl;
    addresses = λ i. refl;
    labels = λ i. refl;
  }

  pub Quiet-trans : {n m k : Network F} → Quiet n m → Quiet m k → Quiet n k
  Quiet-trans p q = record {
    targets = q.targets ∙ p.targets;
    udp = q.udp ∙ p.udp;
    names = q.names ∙ p.names;
    next = q.next ∙ p.next;
    addresses = λ i. q.addresses i ∙ p.addresses i;
    labels = λ i. q.labels i ∙ p.labels i;
  }

  pub Quiet-Agree : (n m : Network F) → Quiet n m → Agree n → Agree m
  Quiet-Agree n m q a =
      rw (q.targets, q.udp, q.names, q.next)
        (Listed-heap n.heap m.heap n.next_target n.targets n.udp_target n.name_target
          (λ i lt. (q.addresses i, q.labels i)) a)

  -- The same of a call that may fail.
  pub record Calm (n : Network F) (o : Outcome (Network F)) : Type 0 where
    pub quiet : (m : Network F) → o ≡ done m → Quiet n m

  pub Calm-done : {n m : Network F} → Quiet n m → Calm n (done m)
  Calm-done q = record { quiet = λ k e. rw (← done_injective e) q }

  pub Calm->>= :
      {n : Network F} {o : Outcome (Network F)} {f : Network F → Outcome (Network F)}
      → Calm n o
      → ((m : Network F) → Calm m (f m))
      → Calm n (o >>= f)
  Calm->>= {n} {o} {f} c h = record {
    quiet = λ k e. let (m, p, q) = >>=-eq-done o f e in Quiet-trans (c.quiet m p) ((h m).quiet k q);
  }

  -- A computation that only yields a value comes before.
  pub Calm-bind :
      {A : Type 0} {n : Network F} (o : Outcome A) {f : A → Outcome (Network F)}
      → ((a : A) → Calm n (f a))
      → Calm n (o >>= f)
  Calm-bind {A} {n} o {f} h = record {
    quiet = λ k e. let (a, p, q) = >>=-eq-done o f e in (h a).quiet k q;
  }

  pub Calm-bind-eq :
      {A : Type 0} {n : Network F} (o : Outcome A) {f : A → Outcome (Network F)}
      → ((a : A) → o ≡ done a → Calm n (f a))
      → Calm n (o >>= f)
  Calm-bind-eq {A} {n} o {f} h = record {
    quiet = λ k e. let (a, p, q) = >>=-eq-done o f e in (h a p).quiet k q;
  }

  pub Calm-trans : {n m : Network F} {o : Outcome (Network F)} → Quiet n m → Calm m o → Calm n o
  Calm-trans q c = record { quiet = λ k e. Quiet-trans q (c.quiet k e) }

  pub Calm-fault : {n : Network F} → Calm n fault
  Calm-fault = record { quiet = λ k e. cc }

  pub Calm-if :
      {n : Network F} (b : Bool) {x y : Outcome (Network F)}
      → Calm n x
      → Calm n y
      → Calm n (if b then x else y)
  Calm-if true p q = p
  Calm-if false p q = q

  pub Quiet-if :
      {n : Network F} (b : Bool) {x y : Network F}
      → Quiet n x
      → Quiet n y
      → Quiet n (if b then x else y)
  Quiet-if true p q = p
  Quiet-if false p q = q

  pub emit-Quiet : (e : Event) (n : Network F) → Quiet n (emit e n)
  unfolding emit
  emit-Quiet e n = record {
    targets = refl;
    udp = refl;
    names = refl;
    next = refl;
    addresses = λ i. refl;
    labels = λ i. refl;
  }

  pub send_to-Quiet : (id : ℕ) (p : Packet) (n : Network F) → Quiet n (send_to id p n)
  unfolding send_to
  send_to-Quiet id p n = emit-Quiet _ n

  pub modify-Quiet :
      (id : ℕ) (f : NetworkTarget F → NetworkTarget F) (n : Network F)
      → (f (n.heap id)).target ≡ (n.heap id).target
      → (f (n.heap id)).name ≡ (n.heap id).name
      → Quiet n (modify id f n)
  unfolding modify
  modify-Quiet id f n p q = record {
    targets = refl;
    udp = refl;
    names = refl;
    next = refl;
    addresses = λ i. ground arith;
    labels = λ i. ground arith;
  }

  pub touch-Quiet : (id now : ℕ) (n : Network F) → Quiet n (touch id now n)
  unfolding touch
  touch-Quiet id now n = modify-Quiet id (λ t. record t { last_update = now }) n refl refl

  pub earlier_event-Quiet : (t : ℕ) (n : Network F) → Quiet n (earlier_event t n)
  unfolding earlier_event emit
  earlier_event-Quiet t n =
      Quiet-if (ltb t n.next_event) {x = emit (next_event_callback t) (record n { next_event = t })}
        {y = n}
        (record {
          targets = refl;
          udp = refl;
          names = refl;
          next = refl;
          addresses = λ i. refl;
          labels = λ i. refl;
        })
        (Quiet-refl n)
