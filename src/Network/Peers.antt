-- ===== src/Network/Peers.antt =====
-- Joining and leaving in src/extension/network/NUClearNetwork.cpp, against the agreement of the three
-- lists of targets.
use nuclear.Base.{
  ℕ, suc, ◌≡◌, refl, ap, sym, ◌∙◌, subst, List, [], ◌∷◌, ◌++◌, true, false, Option, none, some,
  arith,
}
use nuclear.Network.Outcome.{done, >>=-eq-done}
use nuclear.Network.Wire.{announce}
use nuclear.Network.State.{
  SockT, udp_key, join_callback, leave_callback, FloatOps, NetworkTarget, Network, contains, update,
}
use nuclear.Network.Quiet.{
  Agree, Quiet-Agree, Quiet-trans, touch-Quiet, emit-Quiet, send_to-Quiet, done_injective,
}
use nuclear.Network.Targets.{
  find_key, erase_key, erase_name, erase_target, remove_target, add_target, new_target, join,
  announce_new, receive_announce, receive_leave,
}
use nuclear.Network.Targets.Listed.{
  Listed, Listed-key, find_key_sound, Listed-erase, Listed-heap, Listed-snoc,
}

module _ {F : Type 0} where
  -- Removing a listed target succeeds, keeps the agreement and takes the target out.
  pub remove_target_lem :
      (id : ℕ) (n : Network F)
      → Agree n
      → contains id n.targets ≡ true
      → (m : Network F) × (remove_target id n ≡ done m) × Agree m × (contains id m.targets ≡ false)
  unfolding remove_target
  remove_target_lem id n a c =
      let (k, e) = Listed-key n.heap n.next_target n.targets n.udp_target n.name_target id a c in
      let (agree, gone) =
        Listed-erase n.heap n.next_target n.targets n.udp_target n.name_target id k a c e in
      (
        record n {
          udp_target = erase_key k n.udp_target;
          name_target = erase_name (n.heap id).name id n.name_target;
          targets = erase_target id n.targets;
        },
        rw e,
        agree,
        gone,
      )

  -- A new target under an unused key joins the three lists.
  pub add_target-Agree :
      (key : List ℕ) (t : NetworkTarget F) (n : Network F)
      → Agree n
      → udp_key t.target ≡ some key
      → find_key key n.udp_target ≡ none
      → Agree (add_target key t n)
  unfolding add_target
  add_target-Agree key t n a e f =
      subst
        (λ x.
          Listed heap (suc bound) (n.targets ++ bound ∷ []) (n.udp_target ++ (key, bound) ∷ [])
            (n.name_target ++ (x.name, bound) ∷ []))
        self
        (Listed-snoc heap bound n.targets n.udp_target n.name_target key (rw self e) f (
          Listed-heap n.heap heap bound n.targets n.udp_target n.name_target
            (λ i lt. (ground arith, ground arith)) a))
    where
      bound : ℕ
      bound = n.next_target

      heap : ℕ → NetworkTarget F
      heap = update n.heap bound t

      self : heap bound ≡ t
      self = ground arith

  target-new_target :
      (fl : FloatOps F) (name : List ℕ) (address : SockT) (now : ℕ)
      → (new_target fl name address now).target ≡ address
  unfolding new_target
  target-new_target fl name address now = refl

  announce_new-Agree :
      (fl : FloatOps F) (key : List ℕ) (address : SockT) (name : Option (List ℕ)) (now : ℕ)
      (n m : Network F)
      → Agree n
      → udp_key address ≡ some key
      → find_key key n.udp_target ≡ none
      → announce_new fl key address name now n ≡ done m
      → Agree m
  unfolding announce_new join
  announce_new-Agree fl key address none now n m a e f h = absurd (cc)
  announce_new-Agree fl key address (some []) now n m a e f h = subst Agree (done_injective h) a
  announce_new-Agree fl key address (some (c ∷ cs)) now n m a e f h =
      subst Agree (done_injective h) (
        Quiet-Agree added _
          (Quiet-trans (send_to-Quiet n.next_target (announce (some n.announce_name)) added)
            (emit-Quiet (join_callback n.next_target) _))
          (add_target-Agree key (new_target fl (c ∷ cs) address now) n a
            (ap udp_key (target-new_target fl (c ∷ cs) address now) ∙ e) f))
    where
      added : Network F
      added = add_target key (new_target fl (c ∷ cs) address now) n

  -- The ANNOUNCE branch keeps the lists in agreement, whoever announces what.
  pub receive_announce-Agree :
      (fl : FloatOps F) (key : List ℕ) (address : SockT) (name : Option (List ℕ)) (now : ℕ)
      (n m : Network F)
      → Agree n
      → udp_key address ≡ some key
      → receive_announce fl (find_key key n.udp_target) key address name now n ≡ done m
      → Agree m
  unfolding receive_announce
  receive_announce-Agree fl key address name now n m a e h = go (find_key key n.udp_target) refl h
    where
      go :
          (o : Option ℕ)
          → find_key key n.udp_target ≡ o
          → receive_announce fl o key address name now n ≡ done m
          → Agree m
      go none f h = announce_new-Agree fl key address name now n m a e f h
      go (some id) f h = subst Agree (done_injective h) (Quiet-Agree n _ (touch-Quiet id now n) a)

  -- A leaving target is taken out of the lists, and the lists stay in agreement.
  pub receive_leave-Agree :
      (key : List ℕ) (n m : Network F)
      → Agree n
      → receive_leave (find_key key n.udp_target) n ≡ done m
      → Agree m
  unfolding receive_leave
  receive_leave-Agree key n m a h = go (find_key key n.udp_target) refl h
    where
      go : (o : Option ℕ) → find_key key n.udp_target ≡ o → receive_leave o n ≡ done m → Agree m
      go none f h = subst Agree (done_injective h) a
      go (some id) f h =
          let (known, _) =
            find_key_sound n.heap n.next_target n.targets n.udp_target n.name_target id key a f in
          let (k, removed, agree, gone) = remove_target_lem id n a known in
          let (k', p, q) = >>=-eq-done (remove_target id n) _ h in
          let same : k ≡ k' = done_injective (sym removed ∙ p) in
          subst Agree (done_injective q)
            (Quiet-Agree k' _ (emit-Quiet (leave_callback id) k') (subst Agree same agree))
