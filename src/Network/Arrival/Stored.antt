-- ===== src/Network/Arrival/Stored.antt =====
-- src/extension/network/NUClearNetwork.cpp: what one fragment of an unreliable packet does to its assembler.
use mathlib.Core.Option.{some-injective}
use nuclear.Base.{
  ℕ, suc, ◌+◌, ◌*◌, ◌-◌, ◌<◌, ◌≤◌, ◌≡◌, refl, ap, ◌∙◌, List, [], ◌∷◌, ◌++◌, none, some, Bool, true,
  false, not, ltb, ◌==◌, ==_iff, length, keep_if, arith, dec_lt, Bool-cases, inl, inr,
}
use nuclear.Network.Outcome.{done}
use nuclear.Network.Wire.{DataHeader}
use nuclear.Network.State
use nuclear.Network.State.{
  Parts, Assembler, Network, lookup, insert, erase, contains, modify, touch, emit,
}
use nuclear.Network.Data.{
  last_no, parts_of, reaches, store_part, acknowledge_parts, complete, remember_reliable, deliver,
  drop_stale, receive_part, receive_fragment, receive_data,
}
use nuclear.Network.Fragment.{join_parts}
use nuclear.Network.Fragment.Assembly.{Assembles, length-Assembles, lookup-insert}
use nuclear.Network.Arrival.{held_parts}

-- Nothing in an assembler reaches the count.
reaches-Assembles :
    (f : ℕ → List ℕ) (count lo : ℕ) (parts : Parts)
    → Assembles f count lo parts
    → reaches (last_no parts) count ≡ false
unfolding last_no
reaches-Assembles f count lo [] a = refl
reaches-Assembles f count lo ((n, c) ∷ []) a = ground arith
reaches-Assembles f count lo ((n, c) ∷ p ∷ parts) a =
    reaches-Assembles f count (suc n) (p ∷ parts) a.3

-- An assembler without one of the fragments is not full.
pub missing :
    (f : ℕ → List ℕ) (count lo m : ℕ) (parts : Parts)
    → Assembles f count lo parts
    → lo ≤ m
    → m < count
    → lookup m parts ≡ none
    → length parts < count - lo
unfolding lookup
missing f count lo m [] a l h e = omega arith
missing f count lo m ((j, c) ∷ parts) a l h e = elim (dec_lt j m) [
  | yes lt ↦
      omega (arith, a.0, missing f count (suc j) m parts a.3 (omega arith) h (ground (arith, e)))
  | no ge ↦ elim (dec_lt m j) [
    | yes lt ↦ omega (arith, a.1, length-Assembles f count (suc j) parts a.3)
    | no le ↦ absurd (ground (arith, e))
  ]
]

lookup-keep_if :
    {A : Type 0} (p : ℕ × A → Bool) (key : ℕ) (a : A) (m : List (ℕ × A))
    → lookup key m ≡ some a
    → p (key, a) ≡ true
    → lookup key (keep_if p m) ≡ some a
unfolding lookup keep_if
lookup-keep_if p key a [] e h = absurd (cc)
lookup-keep_if p key a ((j, b) ∷ m) e h = elim (Bool-cases (j == key)) [
  | inl y ↦
      let here : b ≡ a = some-injective b a (rw (y, lookup) at e) in
      let kept : p (j, b) ≡ true = rw ((==_iff j key).0 y, here) h in rw (kept, y) (ap some here)
  | inr n ↦
      let rest = lookup-keep_if p key a m (rw (n, lookup) at e) h in
      elim (Bool-cases (p (j, b))) [ inl y ↦ rw (y, n) rest | inr z ↦ rw z rest ]
]

module _ {F : Type 0} where
  heap-modify :
      (id : ℕ) (g : State.NetworkTarget F → State.NetworkTarget F) (n : Network F)
      → (modify id g n).heap id ≡ g (n.heap id)
  unfolding modify
  heap-modify id g n = rw ((==_iff id id).1 refl) refl

  abbrev holding : ℕ → DataHeader → ℕ → Parts → Network F → Network F
  holding id h now parts n =
      modify id
        (λ t. record t {
          assemblers =
              insert h.packet_id (record { last_chunk_time = now; parts = parts }) t.assemblers;
        })
        n

  store_part-open :
      (id : ℕ) (h : DataHeader) (bytes : List ℕ) (now : ℕ) (parts : Parts) (n : Network F)
      → h.reliable ≡ false
      → (length (insert h.packet_no bytes parts) == h.packet_count) ≡ false
      → store_part id h bytes now parts n
        ≡ done (drop_stale id now (holding id h now (insert h.packet_no bytes parts) n))
  unfolding store_part acknowledge_parts
  store_part-open id h bytes now parts n r e = rw (r, e) refl

  pub store_part-full :
      (id : ℕ) (h : DataHeader) (bytes : List ℕ) (now : ℕ) (parts : Parts) (n : Network F)
      → h.reliable ≡ false
      → (length (insert h.packet_no bytes parts) == h.packet_count) ≡ true
      → (end : Network F) × (store_part id h bytes now parts n ≡ done end)
        × (end.events
            ≡ n.events
              ++ State.packet_callback id h.hash false (join_parts (insert h.packet_no bytes parts))
                ∷ [])
  unfolding store_part acknowledge_parts complete remember_reliable deliver emit drop_stale modify
  store_part-full id h bytes now parts n r e =
      let joined = insert h.packet_no bytes parts in
      let held = holding id h now joined n in
      let done_with =
        modify id (λ t. record t { assemblers = erase h.packet_id t.assemblers })
          (deliver id h (join_parts joined) held) in
      (
        drop_stale id now done_with,
        rw (r, e) refl,
        ap (λ b. n.events ++ State.packet_callback id h.hash b (join_parts joined) ∷ []) r,
      )

  -- What is stored is there when stale assemblers were dropped.
  held_parts-stored :
      (id : ℕ) (h : DataHeader) (now : ℕ) (parts : Parts) (n : Network F)
      → held_parts id h.packet_id (drop_stale id now (holding id h now parts n)) ≡ parts
  unfolding drop_stale
  held_parts-stored id h now parts n =
      let hold : State.NetworkTarget F → State.NetworkTarget F = λ t. record t {
        assemblers =
            insert h.packet_id (record { last_chunk_time = now; parts = parts }) t.assemblers;
      } in
      let drop : State.NetworkTarget F → State.NetworkTarget F = λ t. record t {
        assemblers =
            keep_if (λ a. not (ltb (a.1.last_chunk_time + t.round_trip_time * 10) now))
              t.assemblers;
      } in
      let kept : Assembler = record { last_chunk_time = now; parts = parts } in
      ap (λ t. parts_of (lookup h.packet_id t.assemblers))
        (heap-modify id drop (modify id hold n) ∙ ap drop (heap-modify id hold n))
      ∙ ap parts_of (
          lookup-keep_if
            (λ (a : ℕ × Assembler).
              not (ltb (a.1.last_chunk_time + (n.heap id).round_trip_time * 10) now))
            h.packet_id kept (insert h.packet_id kept (n.heap id).assemblers)
            (lookup-insert h.packet_id h.packet_id kept (n.heap id).assemblers
              ∙ rw ((==_iff h.packet_id h.packet_id).1 refl) refl)
            (ground arith))

  in_assembler :
      (id : ℕ) (h : DataHeader) (bytes : List ℕ) (now : ℕ) (parts : Parts) (m : Network F)
      → held_parts id h.packet_id m ≡ parts
      → reaches (last_no parts) h.packet_count ≡ false
      → receive_part id h bytes now m ≡ store_part id h bytes now parts m
  unfolding receive_part
  in_assembler id h bytes now parts m held e = rw (held, e) refl

  -- A fragment of a packet that has several goes to its assembler.
  pub receive_data-store_part :
      (id : ℕ) (h : DataHeader) (f : ℕ → List ℕ) (bytes : List ℕ) (now : ℕ) (parts : Parts)
      (n : Network F)
      → 1 < h.packet_count
      → h.packet_no < h.packet_count
      → held_parts id h.packet_id n ≡ parts
      → Assembles f h.packet_count 0 parts
      → receive_data (some id) false h bytes now n
        ≡ store_part id h bytes now parts (touch id now n)
  unfolding receive_data receive_fragment touch
  receive_data-store_part id h f bytes now parts n several below held a =
      let not_dropped : ltb h.packet_count h.packet_no ≡ false = ground arith in
      let not_solo : (h.packet_count == 1) ≡ false = ground arith in
      let at_hand : held_parts id h.packet_id (touch id now n) ≡ parts =
        ap (λ t. parts_of (lookup h.packet_id t.assemblers))
          (heap-modify id (λ t. record t { last_update = now }) n)
        ∙ held in
      rw (not_dropped, not_solo)
        (in_assembler id h bytes now parts (touch id now n) at_hand
          (reaches-Assembles f h.packet_count 0 parts a))

  -- A fragment that does not fill the assembler: it is kept, and nothing is called back.
  pub receive_data-open :
      (id : ℕ) (h : DataHeader) (f : ℕ → List ℕ) (now : ℕ) (parts : Parts) (n : Network F)
      → h.reliable ≡ false
      → 1 < h.packet_count
      → h.packet_no < h.packet_count
      → held_parts id h.packet_id n ≡ parts
      → Assembles f h.packet_count 0 parts
      → length (insert h.packet_no (f h.packet_no) parts) < h.packet_count
      → (end : Network F) × (receive_data (some id) false h (f h.packet_no) now n ≡ done end)
        × (held_parts id h.packet_id end ≡ insert h.packet_no (f h.packet_no) parts)
        × (end.events ≡ n.events)
  unfolding touch drop_stale modify
  receive_data-open id h f now parts n r several below held a short =
      let m = touch id now n in
      let joined = insert h.packet_no (f h.packet_no) parts in
      let not_full : (length joined == h.packet_count) ≡ false = ground arith in
      (
        drop_stale id now (holding id h now joined m),
        receive_data-store_part id h f (f h.packet_no) now parts n several below held a
            ∙ store_part-open id h (f h.packet_no) now parts m r not_full,
        held_parts-stored id h now joined m,
        refl,
      )
