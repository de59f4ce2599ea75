-- ===== src/Network/Data.antt =====
-- The DATA and DATA_RETRANSMISSION branch of `process_packet` in
-- src/extension/network/NUClearNetwork.cpp. An assembler keeps the payloads of the datagrams, where
-- the source keeps the datagrams and skips their headers when it joins them.
use nuclear.Base.{
  ℕ, ◌+◌, ◌*◌, ◌%◌, List, [], ◌∷◌, Bool, true, false, ◌&&◌, ◌||◌, not, Option, none, some, ltb, leb,
  ◌==◌, if◌then◌else◌, length, set, replicate, keep_if,
}
use nuclear.Network.Outcome.{Outcome, done, fault, ◌>>=◌}
use nuclear.Network.Wire.{DataHeader, ack, nack}
use nuclear.Network.State.{
  Parts, Assembler, NetworkTarget, packet_callback, Network, lookup, insert, erase, emit, send_to,
  modify, touch,
}
use nuclear.Network.Bits.{blank, unmark, mark_below, mark_parts}
use nuclear.Network.Fragment.{join_parts}
use nuclear.Network.Targets.{recent_size}

-- `std::find` in `recent_packets`.
unfoldable pub is_recent : ℕ → List (Option ℕ) → Bool
is_recent id [] = false
is_recent id (none ∷ rest) = is_recent id rest
is_recent id (some j ∷ rest) = j == id || is_recent id rest

-- The number of the last fragment, which is the largest.
unfoldable pub last_no : Parts → Option ℕ
last_no [] = none
last_no ((n, c) ∷ []) = some n
last_no ((n, c) ∷ p ∷ parts) = last_no (p ∷ parts)

-- The assembler of a packet, which `operator[]` makes if it is not there.
abbrev pub parts_of : Option Assembler → Parts
parts_of none = []
parts_of (some a) = a.parts

abbrev pub reaches : Option ℕ → ℕ → Bool
reaches none count = false
reaches (some last) count = leb count last

module _ {F : Type 0} where
  -- Writing a packet id at the index, which then counts up as a uint8_t.
  unfoldable pub remember : ℕ → NetworkTarget F → Outcome (NetworkTarget F)
  remember packet_id t =
      if ltb t.recent_packets_index recent_size
      then done (record t {
        recent_packets = set t.recent_packets t.recent_packets_index (some packet_id);
        recent_packets_index = (t.recent_packets_index + 1) % 256;
      })
      else fault

  -- The same for a target of the network, if the packet is reliable.
  unfoldable pub remember_reliable : ℕ → DataHeader → Network F → Outcome (Network F)
  remember_reliable id h n =
      if h.reliable
      then (remember h.packet_id (n.heap id) >>= λ t. done (modify id (λ _. t) n))
      else done n

  unfoldable pub deliver : ℕ → DataHeader → List ℕ → Network F → Network F
  deliver id h bytes n = emit (packet_callback id h.hash h.reliable bytes) n

  -- Acknowledging again a packet that was processed before.
  unfoldable pub acknowledge_again : ℕ → DataHeader → Network F → Outcome (Network F)
  acknowledge_again id h n = mark_below h.packet_count (blank h.packet_count) >>= λ bits.
      done (send_to id (ack h.packet_id h.packet_no h.packet_count bits) n)

  -- A packet in a single fragment.
  unfoldable pub receive_solo : ℕ → DataHeader → List ℕ → Network F → Outcome (Network F)
  receive_solo id h chunk n =
      let bits : List Bool = true ∷ replicate 7 false in
      let answered =
        (if h.reliable
          then send_to id (ack h.packet_id h.packet_no h.packet_count bits) n
          else n) in
      remember_reliable id h answered >>= λ m. done (deliver id h chunk m)

  -- The answer to a packet count below what the assembler holds.
  unfoldable pub refuse_parts : ℕ → DataHeader → Parts → Network F → Outcome (Network F)
  refuse_parts id h parts n =
      if h.reliable
      then (mark_parts parts (blank h.packet_count) >>= unmark h.packet_no >>= λ bits.
          done (send_to id (nack h.packet_id h.packet_count bits) n))
      else done n

  -- The acknowledgement of what the assembler holds.
  unfoldable pub acknowledge_parts : ℕ → DataHeader → Parts → Network F → Outcome (Network F)
  acknowledge_parts id h parts n =
      if h.reliable
      then (mark_parts parts (blank h.packet_count) >>= λ bits.
          done (send_to id (ack h.packet_id h.packet_no h.packet_count bits) n))
      else done n

  -- The assembler has every fragment: deliver the payload and forget the assembler.
  unfoldable pub complete : ℕ → DataHeader → Parts → Network F → Outcome (Network F)
  complete id h parts n = remember_reliable id h (deliver id h (join_parts parts) n) >>= λ m.
      done (modify id (λ t. record t { assemblers = erase h.packet_id t.assemblers }) m)

  -- Assemblers that got no fragment for ten round trips are dropped.
  unfoldable pub drop_stale : ℕ → ℕ → Network F → Network F
  drop_stale id now n =
      modify id
        (λ t. record t {
          assemblers =
              keep_if (λ a. not (ltb (a.1.last_chunk_time + t.round_trip_time * 10) now))
                t.assemblers;
        })
        n

  -- The fragment joins the parts that are kept, and the packet may be complete.
  unfoldable pub store_part : ℕ → DataHeader → List ℕ → ℕ → Parts → Network F → Outcome (Network F)
  store_part id h chunk now kept n = do
    let parts = insert h.packet_no chunk kept
    let stored =
        modify id
          (λ t. record t {
            assemblers =
                insert h.packet_id (record { last_chunk_time = now; parts = parts }) t.assemblers;
          })
          n
    answered ← acknowledge_parts id h parts stored
    finished ←
        (if length parts == h.packet_count then complete id h parts answered else done answered)
    done (drop_stale id now finished)

  -- A fragment of a packet that has several.
  unfoldable pub receive_part : ℕ → DataHeader → List ℕ → ℕ → Network F → Outcome (Network F)
  receive_part id h chunk now n =
      let parts = parts_of (lookup h.packet_id (n.heap id).assemblers) in
      if reaches (last_no parts) h.packet_count
      then (refuse_parts id h parts n >>= λ m. store_part id h chunk now [] m)
      else store_part id h chunk now parts n

  -- The whole branch for a known sender.
  unfoldable pub receive_fragment :
      ℕ → Bool → DataHeader → List ℕ → ℕ → Network F → Outcome (Network F)
  receive_fragment id retransmission h chunk now n =
      let m = touch id now n in
      if retransmission && (is_recent h.packet_id (m.heap id).recent_packets && h.reliable)
      then acknowledge_again id h m
      else if h.packet_count == 1
      then receive_solo id h chunk m
      else receive_part id h chunk now m

  -- The branch, which drops a fragment whose number is above the count.
  unfoldable pub receive_data :
      Option ℕ → Bool → DataHeader → List ℕ → ℕ → Network F → Outcome (Network F)
  receive_data none retransmission h chunk now n = done n
  receive_data (some id) retransmission h chunk now n =
      if ltb h.packet_count h.packet_no
      then done n
      else receive_fragment id retransmission h chunk now n
