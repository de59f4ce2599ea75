-- ===== src/Network/Bits.antt =====
-- The bitsets of acknowledgements in `process_packet` and `send` of
-- src/extension/network/NUClearNetwork.cpp, as lists of bits in whole bytes: `packet_count / 8 + 1`
-- bytes, and a write behind them is a fault.
pub mod Laws
use nuclear.Base.{
  ℕ, zero, suc, ◌+◌, ◌*◌, ◌/◌, ◌%◌, List, [], ◌∷◌, Bool, true, false, ◌&&◌, ◌||◌, not, ltb, ◌==◌,
  if◌then◌else◌, length, set, replicate,
}
use nuclear.Network.Outcome.{Outcome, done, fault, ◌>>=◌}
use nuclear.Network.State.{Parts}

-- The bits of a vector of `packet_count / 8 + 1` bytes.
abbrev pub bit_room : ℕ → ℕ
bit_room packet_count = 8 * (packet_count / 8 + 1)

unfoldable pub blank : ℕ → List Bool
blank packet_count = replicate (bit_room packet_count) false

-- `(&packets)[i / 8] |= 1 << (i % 8)`.
unfoldable pub mark : ℕ → List Bool → Outcome (List Bool)
mark i bits = if ltb i (length bits) then done (set bits i true) else fault

-- `(&packets)[i / 8] &= ~(1 << (i % 8))`.
unfoldable pub unmark : ℕ → List Bool → Outcome (List Bool)
unmark i bits = if ltb i (length bits) then done (set bits i false) else fault

-- The loop that sets the bit of every packet below a number.
unfoldable pub mark_below : ℕ → List Bool → Outcome (List Bool)
unfolding mark
mark_below zero bits = done bits
mark_below (suc n) bits = mark_below n bits >>= mark n

-- The loop that sets the bit of every fragment in an assembler.
unfoldable pub mark_parts : Parts → List Bool → Outcome (List Bool)
unfolding mark
mark_parts [] bits = done bits
mark_parts ((n, chunk) ∷ parts) bits = mark n bits >>= mark_parts parts

-- `acked[i] |= packets[i]` for every byte.
unfoldable pub or_bits : List Bool → List Bool → List Bool
or_bits (a ∷ as') (b ∷ bs) = (a || b) ∷ or_bits as' bs
or_bits bits _ = bits

-- `acked[i] &= ~packets[i]` for every byte.
unfoldable pub clear_bits : List Bool → List Bool → List Bool
clear_bits (a ∷ as') (b ∷ bs) = (a && not b) ∷ clear_bits as' bs
clear_bits bits _ = bits

-- Whether bit `j` is in the mask that a fully acknowledged byte must match: the last byte counts
-- only its low `packet_count % 8` bits, unless that is zero.
unfoldable pub expected : ℕ → ℕ → ℕ → Bool
expected packet_count bytes j =
    if ltb (j / 8 + 1) bytes || packet_count % 8 == 0 then true else ltb (j % 8) (packet_count % 8)

-- Every expected bit from position `j` on is set.
unfoldable pub all_acked_from : ℕ → ℕ → ℕ → List Bool → Bool
all_acked_from packet_count bytes j [] = true
all_acked_from packet_count bytes j (b ∷ bits) =
    (not (expected packet_count bytes j) || b) && all_acked_from packet_count bytes (suc j) bits

unfoldable pub all_acked : ℕ → List Bool → Bool
unfolding all_acked_from
all_acked packet_count acked = all_acked_from packet_count (length acked / 8) 0 acked
