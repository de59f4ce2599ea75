-- ===== src/Network/Wire.antt =====
-- src/extension/network/wire_protocol.hpp: the packets as bytes, with the packed layout of the
-- structs on a little-endian host, and the reading of a datagram that `process_packet` in
-- src/extension/network/NUClearNetwork.cpp starts with. A bitset is the list of its bits, low bit of
-- the first byte first. A field that lies behind the end of the datagram has a value of its own in
-- `Parsed`, since the source casts without a check of the length.
pub mod Roundtrip
use nuclear.Base.{
  ℕ, zero, suc, ◌+◌, ◌-◌, ◌*◌, ◌/◌, ◌%◌, List, [], ◌∷◌, ◌++◌, Bool, true, false, ◌&&◌, Option, none,
  some, ltb, leb, ◌==◌, if◌then◌else◌, length, take, drop, get_or,
}

-- `DataPacket` without its header and payload.
pub record DataHeader : Type 0 where
  pub packet_id : ℕ
  pub packet_no : ℕ
  pub packet_count : ℕ
  pub reliable : Bool
  pub hash : ℕ

-- The packets; `announce none` is an announcement too short to hold the byte behind its name.
pub data Packet : Type 0 where
  announce : (name : Option (List ℕ)) → Packet
  leave : Packet
  fragment : (retransmission : Bool) (header : DataHeader) (chunk : List ℕ) → Packet
  ack : (packet_id packet_no packet_count : ℕ) (packets : List Bool) → Packet
  nack : (packet_id packet_count : ℕ) (packets : List Bool) → Packet

pub data Parsed : Type 0 where
  ignored short_data short_ack short_nack : Parsed
  read : Packet → Parsed

unfoldable pub u16 : ℕ → List ℕ
u16 v = v % 256 ∷ v / 256 % 256 ∷ []

-- The low `size` bytes of a value, low byte first.
unfoldable pub little_endian : ℕ → ℕ → List ℕ
little_endian zero v = []
little_endian (suc size) v = v % 256 ∷ little_endian size (v / 256)

unfoldable pub value_of : List ℕ → ℕ
value_of [] = 0
value_of (b ∷ bs) = b + 256 * value_of bs

abbrev pub bit : Bool → ℕ
bit true = 1
bit false = 0

-- A number from its lowest bit and the rest.
unfoldable pub low_bit : Bool → ℕ → ℕ
low_bit b v = bit b + 2 * v

-- Eight bits to a byte; a bitset always holds whole bytes.
unfoldable pub pack_bits : List Bool → List ℕ
pack_bits (a ∷ b ∷ c ∷ d ∷ e ∷ f ∷ g ∷ h ∷ rest) =
    low_bit a (low_bit b (low_bit c (low_bit d (low_bit e (low_bit f (low_bit g (low_bit h 0)))))))
    ∷ pack_bits rest
pack_bits _ = []

unfoldable pub odd : ℕ → Bool
odd v = v % 2 == 1

-- The low `size` bits of a value, before other bits.
unfoldable pub bits_of : ℕ → ℕ → List Bool → List Bool
bits_of zero v rest = rest
bits_of (suc size) v rest = odd v ∷ bits_of size (v / 2) rest

unfoldable pub unpack_bits : List ℕ → List Bool
unpack_bits [] = []
unpack_bits (v ∷ vs) = bits_of 8 v (unpack_bits vs)

-- `PacketHeader`, with the value that `Type` gives the packet's type.
unfoldable pub packet_header : ℕ → List ℕ
packet_header type = 0xE2 ∷ 0x98 ∷ 0xA2 ∷ 0x02 ∷ type ∷ []

-- The bytes of a packet as the library sends them: an announcement keeps the zero byte behind its
-- name, and a data packet ends with its payload, in place of the struct's last byte.
unfoldable pub encode : Packet → List ℕ
encode (announce none) = packet_header 1
encode (announce (some name)) = packet_header 1 ++ (name ++ 0 ∷ [])
encode leave = packet_header 2
encode (fragment retransmission h chunk) =
    packet_header (if retransmission then 4 else 3)
    ++ (u16 h.packet_id
        ++ (u16 h.packet_no
            ++ (u16 h.packet_count ++ (bit h.reliable ∷ (little_endian 8 h.hash ++ chunk)))))
encode (ack packet_id packet_no packet_count packets) =
    packet_header 5 ++ (u16 packet_id ++ (u16 packet_no ++ (u16 packet_count ++ pack_bits packets)))
encode (nack packet_id packet_count packets) =
    packet_header 6 ++ (u16 packet_id ++ (u16 packet_count ++ pack_bits packets))

-- The value of `size` bytes at an offset, as the cast struct reads it.
unfoldable pub field_at : ℕ → ℕ → List ℕ → ℕ
field_at offset size bytes = value_of (take size (drop offset bytes))

unfoldable pub parse_announce : List ℕ → Parsed
parse_announce bytes =
    if ltb (length bytes) 6
    then read (announce none)
    else read (announce (some (take (length bytes - 6) (drop 5 bytes))))

unfoldable pub parse_data : Bool → List ℕ → Parsed
parse_data retransmission bytes =
    if ltb (length bytes) 20
    then short_data
    else read (
        fragment retransmission
          (record {
            packet_id = field_at 5 2 bytes;
            packet_no = field_at 7 2 bytes;
            packet_count = field_at 9 2 bytes;
            reliable = ltb 0 (field_at 11 1 bytes);
            hash = field_at 12 8 bytes;
          })
          (drop 20 bytes))

unfoldable pub parse_ack : List ℕ → Parsed
parse_ack bytes =
    if ltb (length bytes) 11
    then short_ack
    else read (
        ack (field_at 5 2 bytes) (field_at 7 2 bytes) (field_at 9 2 bytes)
          (unpack_bits (drop 11 bytes)))

unfoldable pub parse_nack : List ℕ → Parsed
parse_nack bytes =
    if ltb (length bytes) 9
    then short_nack
    else read (nack (field_at 5 2 bytes) (field_at 7 2 bytes) (unpack_bits (drop 9 bytes)))

-- The magic bytes and the version.
unfoldable pub is_packet : List ℕ → Bool
is_packet bytes =
    leb 5 (length bytes)
    && (get_or bytes 0 0 == 0xE2
        && (get_or bytes 1 0 == 0x98 && (get_or bytes 2 0 == 0xA2 && get_or bytes 3 0 == 0x02)))

unfoldable pub parse_type : ℕ → List ℕ → Parsed
parse_type type bytes =
    if type == 1
    then parse_announce bytes
    else if type == 2
    then read leave
    else if type == 3
    then parse_data false bytes
    else if type == 4
    then parse_data true bytes
    else if type == 5
    then parse_ack bytes
    else if type == 6
    then parse_nack bytes
    else ignored

unfoldable pub parse : List ℕ → Parsed
parse bytes = if is_packet bytes then parse_type (get_or bytes 4 0) bytes else ignored
