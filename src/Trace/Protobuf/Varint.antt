-- ===== src/Trace/Protobuf/Varint.antt =====
-- The encoders of src/extension/trace/protobuf.cpp against the decoder that the protobuf format
-- prescribes: seven bits to a byte, low bits first, the top bit set on all but the last.
use nuclear.Base.{
  ℕ, zero, suc, ◌+◌, ◌-◌, ◌*◌, ◌/◌, ◌%◌, ◌^◌, ◌<◌, ◌≡◌, refl, ap, ◌++◌, ◌∷◌, [], List, Option, none,
  some, length, ltb, if◌then◌else◌, arith,
}
use nuclear.Trace.Protobuf.{
  varint_loop, varint_fuel, varint, redundant_loop, redundant_varint, fixed,
}

-- One more byte below the value that the rest decodes to.
abbrev pub shift_in : ℕ → Option (ℕ × List ℕ) → Option (ℕ × List ℕ)
shift_in b none = none
shift_in b (some (v, rest)) = some (b - 128 + 128 * v, rest)

-- The value of a varint at the front of the bytes, and the bytes behind it.
unfoldable pub decode : List ℕ → Option (ℕ × List ℕ)
decode [] = none
decode (b ∷ bs) = if ltb b 128 then some (b, bs) else shift_in b (decode bs)

-- What `n` groups of seven bits can hold.
abbrev room : ℕ → ℕ
room zero = 1
room (suc n) = 128 * room n

decode-varint_loop :
    (fuel v : ℕ) (rest : List ℕ)
    → v < room fuel
    → 0 < fuel
    → decode (varint_loop fuel v ++ rest) ≡ some (v, rest)
unfolding decode varint_loop
decode-varint_loop zero v rest h p = absurd (omega arith)
decode-varint_loop (suc zero) v rest h p = ground arith
decode-varint_loop (suc (suc n)) v rest h p =
    ground (arith, decode-varint_loop (suc n) (v / 128) rest)

-- Decoding what `varint` wrote for a 64 bit value gives the value and leaves the bytes behind it.
pub decode-varint :
    (v : ℕ) (rest : List ℕ) → v < 2 ^ 64 → decode (varint v ++ rest) ≡ some (v, rest)
unfolding varint
decode-varint v rest h = decode-varint_loop varint_fuel v rest (omega arith) (omega arith)

decode-redundant_loop :
    (n v : ℕ) (rest : List ℕ)
    → v < room (suc n)
    → decode (redundant_loop n v ++ rest) ≡ some (v, rest)
unfolding decode redundant_loop
decode-redundant_loop zero v rest h = ground arith
decode-redundant_loop (suc n) v rest h = ground (arith, decode-redundant_loop n (v / 128) rest)

-- A length below 2^14 survives the two bytes that a SubMessage reserves by default.
pub decode-redundant_varint :
    (v : ℕ) (rest : List ℕ) → v < 2 ^ 14 → decode (redundant_varint v 2 ++ rest) ≡ some (v, rest)
unfolding redundant_varint
decode-redundant_varint v rest h = rw (mod_small) (decode-redundant_loop 1 v rest (omega arith))
  where
    mod_small : v % 2 ^ 32 ≡ v
    mod_small = omega arith

pub length-redundant_loop : (n v : ℕ) → length (redundant_loop n v) ≡ suc n
unfolding redundant_loop
length-redundant_loop zero v = refl
length-redundant_loop (suc n) v = ap suc (length-redundant_loop n (v / 128))

-- The value of little-endian bytes.
unfoldable pub from_bytes : List ℕ → ℕ
from_bytes [] = 0
from_bytes (b ∷ bs) = b + 256 * from_bytes bs

abbrev bytes_room : ℕ → ℕ
bytes_room zero = 1
bytes_room (suc n) = 256 * bytes_room n

from_bytes-fixed_room : (size v : ℕ) → v < bytes_room size → from_bytes (fixed size v) ≡ v
unfolding from_bytes fixed
from_bytes-fixed_room zero v h = omega arith
from_bytes-fixed_room (suc n) v h = omega (arith, from_bytes-fixed_room n (v / 256) (omega arith))

-- The eight bytes of `fixed64` read back, low byte first, as the value.
pub from_bytes-fixed : (v : ℕ) → v < 2 ^ 64 → from_bytes (fixed 8 v) ≡ v
from_bytes-fixed v h = from_bytes-fixed_room 8 v h
