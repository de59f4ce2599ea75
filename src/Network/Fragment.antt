-- ===== src/Network/Fragment.antt =====
-- Cutting a payload into fragments, in `send` and `send_packet` of
-- src/extension/network/NUClearNetwork.cpp, and joining the fragments of a full assembler, in
-- `process_packet`. The loop over the map of fragments visits them by number.
pub mod Cutting
pub mod Assembly
use nuclear.Base.{
  ℕ, zero, suc, ◌+◌, ◌*◌, ◌/◌, ◌%◌, ◌^◌, List, [], ◌∷◌, ◌++◌, ltb, if◌then◌else◌, length, take,
  drop,
}
use nuclear.Network.State.{Parts}

-- `uint16_t((payload.size() / packet_data_mtu) + 1)`.
unfoldable pub packet_count : ℕ → List ℕ → ℕ
packet_count mtu payload = (length payload / mtu + 1) % 2 ^ 16

-- The bytes that `send_packet` points its second buffer at.
unfoldable pub chunk : ℕ → ℕ → List ℕ → ℕ → List ℕ
chunk mtu count payload packet_no =
    take (if ltb (packet_no + 1) count then mtu else length payload % mtu)
      (drop (packet_no * mtu) payload)

-- The assembled payload of the fragments.
unfoldable pub join_parts : Parts → List ℕ
join_parts [] = []
join_parts ((n, bytes) ∷ parts) = bytes ++ join_parts parts
