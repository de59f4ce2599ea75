-- ===== src/Network/Arrival/Whole.antt =====
-- src/extension/network/NUClearNetwork.cpp: the fragments of an unreliable packet, up to the callback.
use nuclear.Base.{
  ℕ, ◌+◌, ◌/◌, ◌^◌, ◌<◌, ◌≡◌, refl, sym, ap, ◌∙◌, subst, List, [], ◌∷◌, ◌++◌, none, true, false,
  ◌==◌, ==_iff, length, arith,
}
use nuclear.Network.Outcome.{done}
use nuclear.Network.Wire.{DataHeader}
use nuclear.Network.State
use nuclear.Network.State.{
  Parts, Assembler, Network, lookup, insert, erase, contains, modify, touch, emit,
}
use nuclear.Network.Fragment.{packet_count, chunk, join_parts}
use nuclear.Network.Fragment.Assembly.{
  Assembles, insert-Assembles, length-fill, join_parts-fill, fill, fill-Assembles, lookup-insert,
}
use nuclear.Network.Arrival.{held_parts, numbers, receive_all}
use nuclear.Network.Arrival.Stored.{
  missing, store_part-full, receive_data-store_part, receive_data-open,
}

-- All fragments of a payload: how many there are, and what they come to.
fills :
    (mtu : ℕ) (payload : List ℕ) (ns : List ℕ) (count : ℕ)
    → length payload / mtu + 1 < 2 ^ 16
    → count ≡ packet_count mtu payload
    → ((i : ℕ) → contains i ns ≡ true → i < count)
    → ((i : ℕ) → i < count → contains i ns ≡ true)
    → (length (fill (chunk mtu count payload) ns []) ≡ count)
      × (join_parts (fill (chunk mtu count payload) ns []) ≡ payload)
fills mtu payload ns count small c =
    subst
      (λ k.
        ((i : ℕ) → contains i ns ≡ true → i < k)
        → ((i : ℕ) → i < k → contains i ns ≡ true)
        → (length (fill (chunk mtu k payload) ns []) ≡ k)
          × (join_parts (fill (chunk mtu k payload) ns []) ≡ payload))
      (sym c)
      (λ known every.
        let full = length-fill mtu payload ns known every in
        (full, join_parts-fill mtu payload ns small known full))

contains-last : (m : ℕ) (ns : List ℕ) → contains m (ns ++ m ∷ []) ≡ true
unfolding contains
contains-last m [] = ground arith
contains-last m (j ∷ ns) = ground (arith, contains-last m ns)

contains-before : (i m : ℕ) (ns : List ℕ) → contains i ns ≡ true → contains i (ns ++ m ∷ []) ≡ true
unfolding contains
contains-before i m [] e = absurd (cc)
contains-before i m (j ∷ ns) e = ground (arith, contains-before i m ns)

fill-last :
    (f : ℕ → List ℕ) (m : ℕ) (ns : List ℕ) (parts : Parts)
    → fill f (ns ++ m ∷ []) parts ≡ insert m (f m) (fill f ns parts)
unfolding fill
fill-last f m [] parts = refl
fill-last f m (j ∷ ns) parts = fill-last f m ns (insert j (f j) parts)

module _ {F : Type 0} where
  -- Before the last one has arrived, nothing is called back.
  receive_all-open :
      (id : ℕ) (h : DataHeader) (f : ℕ → List ℕ) (m : ℕ) (arrivals : List (ℕ × ℕ)) (parts : Parts)
      (n : Network F)
      → h.reliable ≡ false
      → 1 < h.packet_count
      → m < h.packet_count
      → ((i : ℕ) → contains i (numbers arrivals) ≡ true → i < h.packet_count)
      → contains m (numbers arrivals) ≡ false
      → lookup m parts ≡ none
      → held_parts id h.packet_id n ≡ parts
      → Assembles f h.packet_count 0 parts
      → (end : Network F) × ((rest : List (ℕ × ℕ))
          → receive_all id h f (arrivals ++ rest) n ≡ receive_all id h f rest end)
        × (held_parts id h.packet_id end ≡ fill f (numbers arrivals) parts)
        × (end.events ≡ n.events)
  unfolding receive_all fill contains
  receive_all-open id h f m [] parts n r several last known apart none_yet held a =
      (n, λ rest. refl, held, refl)
  receive_all-open id h f m ((j, now) ∷ arrivals) parts n r several last known apart none_yet held
        a =
      let below : j < h.packet_count = known j (ground arith) in
      let other : (j == m) ≡ false = ground arith in
      let without : lookup m (insert j (f j) parts) ≡ none =
        lookup-insert j m (f j) parts ∙ rw other none_yet in
      let still : Assembles f h.packet_count 0 (insert j (f j) parts) =
        insert-Assembles f h.packet_count j 0 parts below (omega arith) a in
      let (next, e, kept, same) =
        receive_data-open id (record h { packet_no = j }) f now parts n r several below held a
          (omega (
            arith,
            missing f h.packet_count 0 m (insert j (f j) parts) still (omega arith) last without,
          )) in
      let (end, g, all, same_end) =
        receive_all-open id h f m arrivals (insert j (f j) parts) next r several last
          (λ i c. known i (ground arith)) (ground arith) without kept still in
      (end, λ rest. rw e (g rest), all, same_end ∙ same)

  -- The fragments of a payload arrive with several of them, in any order and repeated, the last one as
  -- the only one of its number, at an unreliable target...
  pub receive_all-chunk :
      (id : ℕ) (h : DataHeader) (mtu : ℕ) (payload : List ℕ) (before : List (ℕ × ℕ)) (m now : ℕ)
      (n : Network F)
      → h.reliable ≡ false
      → h.packet_count ≡ packet_count mtu payload
      → 1 < h.packet_count
      → length payload / mtu + 1 < 2 ^ 16
      → ((i : ℕ) → contains i (numbers before ++ m ∷ []) ≡ true → i < h.packet_count)
      → ((i : ℕ) → i < h.packet_count → contains i (numbers before ++ m ∷ []) ≡ true)
      → contains m (numbers before) ≡ false
      → held_parts id h.packet_id n ≡ []
      → (end : Network F) × (receive_all id h
            (chunk mtu h.packet_count payload)
            (before ++ (m, now) ∷ [])
            n
          ≡ done end)
        × (end.events ≡ n.events ++ State.packet_callback id h.hash false payload ∷ [])
  unfolding receive_all touch modify
  receive_all-chunk id h mtu payload before m now n r c several small known every apart empty =
      let f = chunk mtu h.packet_count payload in
      let last : m < h.packet_count = known m (contains-last m (numbers before)) in
      let earlier : (i : ℕ) → contains i (numbers before) ≡ true → i < h.packet_count =
        λ i e. known i (contains-before i m (numbers before) e) in
      let (k, goes_on, held, same) =
        receive_all-open id h f m before [] n r several last earlier apart (unfold lookup in refl)
          empty tt in
      let a = fill-Assembles f h.packet_count (numbers before) [] earlier tt in
      let (all_there, joined) =
        fills mtu payload (numbers before ++ m ∷ []) h.packet_count small c known every in
      let full = insert m (f m) (fill f (numbers before) []) in
      let whole : full ≡ fill f (numbers before ++ m ∷ []) [] =
        sym (fill-last f m (numbers before) []) in
      let is_full : (length full == h.packet_count) ≡ true =
        (==_iff (length full) h.packet_count).1 (ap length whole ∙ all_there) in
      let (end, e, called) =
        store_part-full id (record h { packet_no = m }) (f m) now (fill f (numbers before) [])
          (touch id now k) r is_full in
      (
        end,
        goes_on ((m, now) ∷ [])
            ∙ rw
                (receive_data-store_part id (record h { packet_no = m }) f (f m) now
                    (fill f (numbers before) []) k several last held a
                  ∙ e)
                refl,
        called
            ∙ ap (λ es. es ++ State.packet_callback id h.hash false (join_parts full) ∷ []) same
            ∙ ap (λ b. n.events ++ State.packet_callback id h.hash false b ∷ [])
                (ap join_parts whole ∙ joined),
      )
