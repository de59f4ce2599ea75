-- ===== src/Network/Wire/Roundtrip.antt =====
-- Reading what the library sends, for src/extension/network/wire_protocol.hpp.
use nuclear.Base.{
  ℕ, zero, suc, ◌+◌, ◌-◌, ◌*◌, ◌/◌, ◌%◌, ◌^◌, ◌<◌, ◌≡◌, refl, sym, List, [], ◌∷◌, ◌++◌, Bool, true,
  false, none, some, length, take, length-append, take-length-append, ltb, arith, subst,
}
use nuclear.Network.Wire.{
  DataHeader, Packet, announce, leave, fragment, ack, nack, read, u16, little_endian, value_of,
  pack_bits, unpack_bits, packet_header, encode, field_at, parse_announce, parse_data, parse_ack,
  parse_nack, parse_type, is_packet, parse, bit, odd, low_bit, bits_of,
}

-- A bitset is whole bytes.
abbrev pub IsWhole : List Bool → Type 0
IsWhole [] = Unit {0}
IsWhole (a ∷ b ∷ c ∷ d ∷ e ∷ f ∷ g ∷ h ∷ rest) = IsWhole rest
IsWhole _ = ⊥

odd-low_bit : (b : Bool) (v : ℕ) → odd (low_bit b v) ≡ b
unfolding odd low_bit
odd-low_bit true v = ground arith
odd-low_bit false v = ground arith

half-low_bit : (b : Bool) (v : ℕ) → low_bit b v / 2 ≡ v
unfolding low_bit
half-low_bit true v = omega arith
half-low_bit false v = omega arith

pub unpack_bits-pack_bits : (bits : List Bool) → IsWhole bits → unpack_bits (pack_bits bits) ≡ bits
unfolding pack_bits unpack_bits bits_of
unpack_bits-pack_bits [] w = refl
unpack_bits-pack_bits (a ∷ b ∷ c ∷ d ∷ e ∷ f ∷ g ∷ h ∷ rest) w =
    simp (odd-low_bit, half-low_bit, unpack_bits-pack_bits rest w)
unpack_bits-pack_bits _ w = absurd w

-- The numbers in a header fit their fields.
pub record Fits (h : DataHeader) : Type 0 where
  pub id_fits : h.packet_id < 2 ^ 16
  pub no_fits : h.packet_no < 2 ^ 16
  pub count_fits : h.packet_count < 2 ^ 16
  pub hash_fits : h.hash < 2 ^ 64

value_of-u16 : (v : ℕ) → v < 2 ^ 16 → v % 256 + 256 * (v / 256 % 256 + 256 * 0) ≡ v
value_of-u16 v h = omega arith

abbrev room : ℕ → ℕ
room zero = 1
room (suc n) = 256 * room n

value_of-little_endian : (size v : ℕ) → v < room size → value_of (little_endian size v) ≡ v
unfolding value_of little_endian
value_of-little_endian zero v h = omega arith
value_of-little_endian (suc n) v h = omega (arith, value_of-little_endian n (v / 256) (omega arith))

reliable_bit : (b : Bool) → ltb 0 (bit b + 256 * 0) ≡ b
reliable_bit true = refl
reliable_bit false = refl

parse-ack :
    (id number count : ℕ) (bits : List Bool)
    → id < 2 ^ 16
    → number < 2 ^ 16
    → count < 2 ^ 16
    → IsWhole bits
    → parse (encode (ack id number count bits)) ≡ read (ack id number count bits)
unfolding parse encode parse_type parse_ack is_packet packet_header u16 field_at value_of
parse-ack id number count bits hi hn hc w = simp (unpack_bits-pack_bits bits w) (ground arith)

parse-nack :
    (id count : ℕ) (bits : List Bool)
    → id < 2 ^ 16
    → count < 2 ^ 16
    → IsWhole bits
    → parse (encode (nack id count bits)) ≡ read (nack id count bits)
unfolding parse encode parse_type parse_nack is_packet packet_header u16 field_at value_of
parse-nack id count bits hi hc w = simp (unpack_bits-pack_bits bits w) (ground arith)

take_name :
    (name : List ℕ)
    → take (suc (suc (suc (suc (suc (length (name ++ 0 ∷ [])))))) - 6) (name ++ 0 ∷ []) ≡ name
take_name name =
    subst (λ n. take n (name ++ 0 ∷ []) ≡ name) (sym size) (take-length-append name (0 ∷ []))
  where
    size : suc (suc (suc (suc (suc (length (name ++ 0 ∷ [])))))) - 6 ≡ length name
    size = omega (arith, length-append name (0 ∷ []))

parse-announce :
    (name : List ℕ) → parse (encode (announce (some name))) ≡ read (announce (some name))
unfolding parse encode parse_type parse_announce is_packet packet_header
parse-announce name = ground (arith, take_name name, length-append name (0 ∷ []))

parse-leave : parse (encode leave) ≡ read leave
unfolding parse encode parse_type is_packet packet_header
parse-leave = refl

parse-fragment :
    (retransmission : Bool) (h : DataHeader) (chunk : List ℕ)
    → Fits h
    → parse (encode (fragment retransmission h chunk)) ≡ read (fragment retransmission h chunk)
unfolding parse encode parse_type parse_data is_packet packet_header u16 field_at value_of
    little_endian
parse-fragment true h chunk f = ground (arith, reliable_bit h.reliable)
parse-fragment false h chunk f = ground (arith, reliable_bit h.reliable)

-- What a packet must meet to be sent whole: numbers that fit their fields, whole bytes of bits, and
-- the byte behind the name.
abbrev pub IsSendable : Packet → Type 0
IsSendable (announce none) = ⊥
IsSendable (announce (some name)) = Unit {0}
IsSendable leave = Unit {0}
IsSendable (fragment retransmission h chunk) = Fits h
IsSendable (ack id number count bits) =
    (id < 2 ^ 16) × (number < 2 ^ 16) × (count < 2 ^ 16) × IsWhole bits
IsSendable (nack id count bits) = (id < 2 ^ 16) × (count < 2 ^ 16) × IsWhole bits

-- A datagram that the library writes for a packet whose numbers fit their fields is read back as
-- that packet, for every type of packet.
pub parse-encode : (p : Packet) → IsSendable p → parse (encode p) ≡ read p
parse-encode (announce none) s = absurd s
parse-encode (announce (some name)) s = parse-announce name
parse-encode leave s = parse-leave
parse-encode (fragment retransmission h chunk) s = parse-fragment retransmission h chunk s
parse-encode (ack id number count bits) s = parse-ack id number count bits s.0 s.1 s.2 s.3
parse-encode (nack id count bits) s = parse-nack id count bits s.0 s.1 s.2
