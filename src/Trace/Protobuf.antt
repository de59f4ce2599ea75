-- ===== src/Trace/Protobuf.antt =====
-- src/extension/trace/protobuf.cpp: the writer of protobuf fields. A byte is a number below 256 and
-- the output a list of bytes; `x & 0x7F` is `x % 128`, `x | 0x80` on such a value is `x + 128`, and
-- `x >> 7` is `x / 128`. The loop of `varint` runs on fuel: ten rounds write any 64 bit value.
pub mod Varint
pub mod Fields
use nuclear.Base.{
  ℕ, zero, suc, ◌+◌, ◌-◌, ◌*◌, ◌/◌, ◌%◌, ◌^◌, ◌++◌, ◌∷◌, [], List, length, take, drop, replicate,
  ltb, if◌then◌else◌,
}

-- The rounds of the `while`, each writing the low seven bits with the continuation bit set.
unfoldable pub varint_loop : ℕ → ℕ → List ℕ
varint_loop zero v = []
varint_loop (suc fuel) v =
    let rest = varint_loop fuel (v / 128) in
    if ltb v 128 then v % 128 ∷ [] else (v % 128 + 128) ∷ rest

abbrev pub varint_fuel : ℕ
varint_fuel = 10

-- `encode::varint` of a value of at most 64 bits.
unfoldable pub varint : ℕ → List ℕ
varint v = varint_loop varint_fuel v

-- `encode::redundant_varint` with `n_bytes - 1` continuation bytes left to write.
unfoldable pub redundant_loop : ℕ → ℕ → List ℕ
redundant_loop zero v = v % 128 ∷ []
redundant_loop (suc n) v = (v % 128 + 128) ∷ redundant_loop n (v / 128)

-- `n_bytes - 1` wraps at zero bytes in the source; every caller passes at least one.
unfoldable pub redundant_varint : ℕ → ℕ → List ℕ
redundant_varint value n_bytes = redundant_loop (n_bytes - 1) (value % 2 ^ 32)

-- `encode::fixed` of a value of `size` bytes, low byte first.
unfoldable pub fixed : ℕ → ℕ → List ℕ
fixed zero v = []
fixed (suc size) v = v % 256 ∷ fixed size (v / 256)

-- `encode::length_delimited`: the length, as a uint32_t, and the bytes.
unfoldable pub length_delimited : List ℕ → List ℕ
length_delimited s = varint (length s % 2 ^ 32) ++ s

-- `uint32_t(id << 3 | wire_type)` for a wire type below 8.
unfoldable pub tag : ℕ → ℕ → List ℕ
tag id wire_type = varint ((id * 8 + wire_type) % 2 ^ 32)

-- `uint64`, `int64`, `uint32` and `int32` take the value as its unsigned bit pattern.
unfoldable pub uint64 : ℕ → ℕ → List ℕ → List ℕ
uint64 id value out = out ++ (tag id 0 ++ varint value)

unfoldable pub fixed64 : ℕ → ℕ → List ℕ → List ℕ
fixed64 id value out = out ++ (tag id 1 ++ fixed 8 value)

unfoldable pub string : ℕ → List ℕ → List ℕ → List ℕ
string id value out = out ++ (tag id 2 ++ length_delimited value)

-- A `SubMessage` in progress: where its length goes, and how many bytes are reserved for it.
pub record SubMessage : Type 0 where
  pub start : ℕ
  pub varint_bytes : ℕ

-- The constructor writes the tag and reserves room for the length.
unfoldable pub open_message : ℕ → ℕ → List ℕ → List ℕ
open_message id varint_bytes out = (out ++ tag id 2) ++ replicate varint_bytes 0

-- What the constructor stores: the position behind the tag.
unfoldable pub opened : ℕ → ℕ → List ℕ → SubMessage
opened id varint_bytes out = record {
  start = length (out ++ tag id 2);
  varint_bytes = varint_bytes;
}

-- Writing bytes through an iterator over the vector, from a position on.
unfoldable pub overwrite : ℕ → List ℕ → List ℕ → List ℕ
overwrite position bytes out = take position out ++ (bytes ++ drop (position + length bytes) out)

-- The destructor writes the length of what came after the reserved bytes.
unfoldable pub close_message : SubMessage → List ℕ → List ℕ
close_message m out =
    overwrite m.start (redundant_varint (length out - m.start - m.varint_bytes) m.varint_bytes) out

-- A scope that holds a `SubMessage`: open, run the body, close.
unfoldable pub sub_message : ℕ → ℕ → (List ℕ → List ℕ) → List ℕ → List ℕ
sub_message id varint_bytes body out =
    close_message (opened id varint_bytes out) (body (open_message id varint_bytes out))
