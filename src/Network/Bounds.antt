-- ===== src/Network/Bounds.antt =====
-- The accesses of `process_packet` of src/extension/network/NUClearNetwork.cpp to its arrays.
mod Tests
use nuclear.Base.{
  ℕ, zero, suc, ◌+◌, ◌*◌, ◌/◌, ◌%◌, ◌<◌, ◌≤◌, ◌≡◌, refl, ◌∙◌, List, [], ◌∷◌, Bool, true, false,
  none, some, inl, inr, Bool-cases, Option-cases, lt→ltb, not-ltb, length, set, get_elem?,
  length-set, length-replicate, arith, ◌++◌, replicate,
}
use nuclear.Network.Outcome.{done, fault}
use nuclear.Network.Wire.{DataHeader, ack}
use nuclear.Network.State.{
  Parts, NetworkTarget, PacketTarget, PacketQueue, Network, send_to, lookup, emit, modify, sent,
  packet_callback,
}
use nuclear.Network.Bits.{bit_room, blank, mark, mark_parts}
use nuclear.Network.Data.{
  remember, remember_reliable, acknowledge_parts, refuse_parts, receive_solo, deliver,
}
use nuclear.Network.Acks.{resend_nacked, apply_nack}

-- Every fragment has a number below a bound.
abbrev pub NumbersBelow : ℕ → Parts → Type 0
NumbersBelow bound [] = Unit {0}
NumbersBelow bound ((n, c) ∷ parts) = (n < bound) × NumbersBelow bound parts

NumbersBelow-mono : {m n : ℕ} (parts : Parts) → m ≤ n → NumbersBelow m parts → NumbersBelow n parts
NumbersBelow-mono [] h b = tt
NumbersBelow-mono ((k, c) ∷ parts) h b = (omega arith, NumbersBelow-mono parts h b.1)

length-blank : (count : ℕ) → length (blank count) ≡ bit_room count
unfolding blank
length-blank count = length-replicate (bit_room count) false

mark_parts_fits :
    (parts : Parts) (bits : List Bool)
    → NumbersBelow (length bits) parts
    → (marked : List Bool) × (mark_parts parts bits ≡ done marked) × (length marked ≡ length bits)
unfolding mark_parts mark
mark_parts_fits [] bits b = (bits, refl, refl)
mark_parts_fits ((n, c) ∷ parts) bits b =
    let size = length-set bits n true in
    let (marked, e, l) = mark_parts_fits parts (set bits n true) (rw size b.1) in
    (marked, rw (lt→ltb n (length bits) b.0) e, l ∙ size)

mark_parts_fault :
    (parts : Parts) (bits : List Bool) (number : ℕ) (c : List ℕ)
    → lookup number parts ≡ some c
    → length bits ≤ number
    → mark_parts parts bits ≡ fault
unfolding mark_parts mark lookup
mark_parts_fault [] bits number c e h = cc
mark_parts_fault ((n, d) ∷ parts) bits number c e h =
    ground (arith, length-set bits n true, mark_parts_fault parts (set bits n true) number c)

get_elem?-none : {A : Type 0} (xs : List A) (i : ℕ) → length xs ≤ i → get_elem? xs i ≡ none
get_elem?-none [] i h = refl
get_elem?-none (x ∷ xs) zero h = absurd (omega arith)
get_elem?-none (x ∷ xs) (suc i) h = get_elem?-none xs i (omega arith)

get_elem?_lt : {A : Type 0} (xs : List A) (i : ℕ) (a : A) → get_elem? xs i ≡ some a → i < length xs
get_elem?_lt [] i a e = cc
get_elem?_lt (x ∷ xs) zero a e = omega arith
get_elem?_lt (x ∷ xs) (suc i) a e = omega (arith, get_elem?_lt xs i a e)

module _ {F : Type 0} where
  -- The answer to a fragment stays within its bitset: where no fragment that the assembler holds has
  -- a number above the packet count, the acknowledgement is sent.
  pub acknowledge_parts_bounds :
      (id : ℕ) (h : DataHeader) (parts : Parts) (n : Network F)
      → NumbersBelow (suc h.packet_count) parts
      → (m : Network F) × (acknowledge_parts id h parts n ≡ done m)
  unfolding acknowledge_parts
  acknowledge_parts_bounds id h parts n b = elim (Bool-cases h.reliable) [
    | inl r ↦
        let (marked, e, _) =
          mark_parts_fits parts (blank h.packet_count) (NumbersBelow-mono parts fits b) in
        (send_to id (ack h.packet_id h.packet_no h.packet_count marked) n, rw (r, e))
    | inr r ↦ (n, rw r)
  ]
    where
      fits : suc h.packet_count ≤ length (blank h.packet_count)
      fits = omega (arith, length-blank h.packet_count)

  -- An assembler that holds a fragment whose number is past the bitset of a new packet count: the
  -- negative acknowledgement that answers a reliable packet is written out of bounds.
  pub refuse_parts_fault :
      (id : ℕ) (h : DataHeader) (parts : Parts) (number : ℕ) (c : List ℕ) (n : Network F)
      → h.reliable ≡ true
      → lookup number parts ≡ some c
      → bit_room h.packet_count ≤ number
      → refuse_parts id h parts n ≡ fault
  unfolding refuse_parts
  refuse_parts_fault id h parts number c n r e big = rw (
    r,
    mark_parts_fault parts (blank h.packet_count) number c e
        (omega (arith, length-blank h.packet_count)),
  )

  -- Once the index has reached 255, remembering a reliable packet writes past the array.
  pub receive_solo_fault :
      (id : ℕ) (h : DataHeader) (chunk : List ℕ) (n : Network F)
      → h.reliable ≡ true
      → 255 ≤ (n.heap id).recent_packets_index
      → receive_solo id h chunk n ≡ fault
  unfolding receive_solo remember_reliable remember send_to emit
  receive_solo_fault id h chunk n r i = rw (r, not-ltb (n.heap id).recent_packets_index 255 i)

  -- Below that index a reliable packet in one fragment is acknowledged with its one bit and then
  -- delivered, in this order.
  pub receive_solo_events :
      (id : ℕ) (h : DataHeader) (chunk : List ℕ) (n : Network F)
      → h.reliable ≡ true
      → (n.heap id).recent_packets_index < 255
      → (m : Network F) × (receive_solo id h chunk n ≡ done m)
        × (m.events
            ≡ (n.events
                ++ sent
                    (n.heap id).target
                    (ack h.packet_id h.packet_no h.packet_count (true ∷ replicate 7 false))
                  ∷ [])
              ++ packet_callback id h.hash h.reliable chunk ∷ [])
  unfolding receive_solo remember_reliable remember send_to emit modify deliver
  receive_solo_events id h chunk n r i =
      (deliver id h chunk (modify id (λ _. remembered) answered), same, refl)
    where
      remembered : NetworkTarget F
      remembered = record (n.heap id) {
        recent_packets =
            set (n.heap id).recent_packets (n.heap id).recent_packets_index (some h.packet_id);
        recent_packets_index = ((n.heap id).recent_packets_index + 1) % 256;
      }

      answered : Network F
      answered =
          send_to id (ack h.packet_id h.packet_no h.packet_count (true ∷ replicate 7 false)) n

      same :
          receive_solo id h chunk n
          ≡ done (deliver id h chunk (modify id (λ _. remembered) answered))
      same = ground (arith)

  resend_nacked_fault :
      (rounds i id bytes : ℕ) (q : PacketQueue) (bits : List Bool) (n : Network F)
      → length bits ≡ 8 * bytes
      → i ≤ bytes
      → bytes < i + rounds
      → resend_nacked rounds i id q bits n ≡ fault
  unfolding resend_nacked
  resend_nacked_fault zero i id bytes q bits n size low high = absurd (omega arith)
  resend_nacked_fault (suc rounds) i id bytes q bits n size low high =
      elim (Option-cases (get_elem? bits (i * 8 + i % 8))) [
        | inl e ↦ rw (e, resend_nacked)
        | inr (b, e) ↦
            rw (e, resend_nacked)
              (resend_nacked_fault rounds (suc i) id bytes q bits _ size
                (omega (arith, get_elem?_lt bits (i * 8 + i % 8) b e)) (omega arith))
      ]

  -- A negative acknowledgement for a packet whose count of fragments is not 0, with a bitset of the size
  -- that belongs to this count, is read out of bounds by the loop that sends the fragments again.
  pub apply_nack_fault :
      (id packet_id : ℕ) (q : PacketQueue) (s : PacketTarget) (bits : List Bool) (now : ℕ)
      (n : Network F)
      → 0 < q.header.packet_count
      → length bits ≡ bit_room q.header.packet_count
      → apply_nack id packet_id q s bits now n ≡ fault
  unfolding apply_nack
  apply_nack_fault id packet_id q s bits now n pos size =
      resend_nacked_fault (q.header.packet_count * 8) 0 id (q.header.packet_count / 8 + 1) q bits _
        size (omega arith) (omega arith)
