-- ===== src/Network/Quiet/Data.antt =====
-- The data branch of `process_packet` in src/extension/network/NUClearNetwork.cpp, and what it leaves
-- alone.
use nuclear.Base.{ℕ, ◌+◌, ◌*◌, ◌≡◌, refl, List, [], Bool, ltb, not, keep_if, arith}
use nuclear.Network.Outcome.{done}
use nuclear.Network.Wire.{DataHeader}
use nuclear.Network.State.{Parts, NetworkTarget, Network, insert, erase}
use nuclear.Network.Data.{
  remember, remember_reliable, deliver, acknowledge_again, receive_solo, refuse_parts,
  acknowledge_parts, complete, drop_stale, store_part, receive_part, receive_fragment,
}
use nuclear.Network.Quiet.{
  Quiet, Quiet-refl, Calm, Calm-done, Calm->>=, Calm-bind, Calm-bind-eq, Calm-trans, Calm-if,
  Quiet-if, emit-Quiet, send_to-Quiet, modify-Quiet, touch-Quiet,
}

module _ {F : Type 0} (id : ℕ) where
  deliver-Quiet : (h : DataHeader) (bytes : List ℕ) (n : Network F) → Quiet n (deliver id h bytes n)
  unfolding deliver
  deliver-Quiet h bytes n = emit-Quiet _ n

  remember_target :
      (packet_id : ℕ) (t s : NetworkTarget F)
      → remember packet_id t ≡ done s
      → (s.target ≡ t.target) × (s.name ≡ t.name)
  unfolding remember
  remember_target packet_id t s e = ground arith

  remember_reliable-Calm : (h : DataHeader) (n : Network F) → Calm n (remember_reliable id h n)
  unfolding remember_reliable
  remember_reliable-Calm h n =
      Calm-if h.reliable
        (Calm-bind-eq (remember h.packet_id (n.heap id)) (λ t e.
          let (p, q) = remember_target h.packet_id (n.heap id) t e in
          Calm-done (modify-Quiet id (λ _. t) n p q)))
        (Calm-done (Quiet-refl n))

  acknowledge_again-Calm : (h : DataHeader) (n : Network F) → Calm n (acknowledge_again id h n)
  unfolding acknowledge_again
  acknowledge_again-Calm h n = Calm-bind _ (λ bits. Calm-done (send_to-Quiet id _ n))

  receive_solo-Calm :
      (h : DataHeader) (chunk : List ℕ) (n : Network F) → Calm n (receive_solo id h chunk n)
  unfolding receive_solo
  receive_solo-Calm h chunk n =
      Calm-trans (Quiet-if h.reliable (send_to-Quiet id _ n) (Quiet-refl n))
        (Calm->>= (remember_reliable-Calm h _) (λ m. Calm-done (deliver-Quiet h chunk m)))

  refuse_parts-Calm :
      (h : DataHeader) (parts : Parts) (n : Network F) → Calm n (refuse_parts id h parts n)
  unfolding refuse_parts
  refuse_parts-Calm h parts n =
      Calm-if h.reliable (Calm-bind _ (λ bits. Calm-done (send_to-Quiet id _ n)))
        (Calm-done (Quiet-refl n))

  acknowledge_parts-Calm :
      (h : DataHeader) (parts : Parts) (n : Network F) → Calm n (acknowledge_parts id h parts n)
  unfolding acknowledge_parts
  acknowledge_parts-Calm h parts n =
      Calm-if h.reliable (Calm-bind _ (λ bits. Calm-done (send_to-Quiet id _ n)))
        (Calm-done (Quiet-refl n))

  complete-Calm : (h : DataHeader) (parts : Parts) (n : Network F) → Calm n (complete id h parts n)
  unfolding complete
  complete-Calm h parts n = Calm-trans (deliver-Quiet h _ n) (
      Calm->>= (remember_reliable-Calm h _) (λ m. Calm-done (
        modify-Quiet id (λ t. record t { assemblers = erase h.packet_id t.assemblers }) m refl
          refl)))

  drop_stale-Quiet : (now : ℕ) (n : Network F) → Quiet n (drop_stale id now n)
  unfolding drop_stale
  drop_stale-Quiet now n =
      modify-Quiet id
        (λ t. record t {
          assemblers =
              keep_if (λ a. not (ltb (a.1.last_chunk_time + t.round_trip_time * 10) now))
                t.assemblers;
        })
        n refl refl

  store_part-Calm :
      (h : DataHeader) (chunk : List ℕ) (now : ℕ) (kept : Parts) (n : Network F)
      → Calm n (store_part id h chunk now kept n)
  unfolding store_part
  store_part-Calm h chunk now kept n =
      Calm-trans
        (modify-Quiet id
          (λ t. record t {
            assemblers =
                insert h.packet_id
                  (record { last_chunk_time = now; parts = insert h.packet_no chunk kept })
                  t.assemblers;
          })
          n refl refl)
        (Calm->>= (acknowledge_parts-Calm h _ _) (λ m.
          Calm->>= (Calm-if _ (complete-Calm h _ m) (Calm-done (Quiet-refl m)))
            (λ k. Calm-done (drop_stale-Quiet now k))))

  receive_part-Calm :
      (h : DataHeader) (chunk : List ℕ) (now : ℕ) (n : Network F)
      → Calm n (receive_part id h chunk now n)
  unfolding receive_part
  receive_part-Calm h chunk now n =
      Calm-if _ (Calm->>= (refuse_parts-Calm h _ n) (λ m. store_part-Calm h chunk now [] m))
        (store_part-Calm h chunk now _ n)

  pub receive_fragment-Calm :
      (retransmission : Bool) (h : DataHeader) (chunk : List ℕ) (now : ℕ) (n : Network F)
      → Calm n (receive_fragment id retransmission h chunk now n)
  unfolding receive_fragment
  receive_fragment-Calm retransmission h chunk now n = Calm-trans (touch-Quiet id now n) (
      Calm-if _ (acknowledge_again-Calm h _)
        (Calm-if _ (receive_solo-Calm h chunk _) (receive_part-Calm h chunk now _)))
