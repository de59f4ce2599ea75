-- ===== src/Trace/Protobuf/Fields.antt =====
-- Whole fields and nested messages of src/extension/trace/protobuf.cpp, read back by the format.
use nuclear.Base.{
  ℕ, ◌+◌, ◌-◌, ◌*◌, ◌/◌, ◌%◌, ◌^◌, ◌<◌, ◌≡◌, ap, sym, ◌∙◌, ◌++◌, [], List, Option, none, some,
  length, replicate, append_assoc, arith, take-length-append, drop-length-append, length-append,
  length-replicate,
}
use nuclear.Trace.Protobuf.{
  varint, redundant_varint, length_delimited, tag, uint64, string, open_message, opened, overwrite,
  close_message, sub_message,
}
use nuclear.Trace.Protobuf.Varint.{
  decode, decode-varint, decode-redundant_varint, length-redundant_loop,
}

-- A field as the format reads it: its number, its wire type, and the value of its first varint.
pub record Field : Type 0 where
  pub number : ℕ
  pub wire_type : ℕ
  pub value : ℕ
  pub behind : List ℕ

abbrev pub read_value : ℕ → Option (ℕ × List ℕ) → Option Field
read_value key none = none
read_value key (some (v, rest)) =
    some (record { number = key / 8; wire_type = key % 8; value = v; behind = rest })

abbrev pub read_key : Option (ℕ × List ℕ) → Option Field
read_key none = none
read_key (some (key, rest)) = read_value key (decode rest)

-- The field at the front of the bytes.
unfoldable pub read_field : List ℕ → Option Field
read_field bs = read_key (decode bs)

read_field_lem :
    (id wire_type v : ℕ) (value rest : List ℕ)
    → id < 2 ^ 29
    → wire_type < 8
    → decode (value ++ rest) ≡ some (v, rest)
    → read_field ((tag id wire_type ++ value) ++ rest)
      ≡ some (record { number = id; wire_type = wire_type; value = v; behind = rest })
unfolding read_field tag
read_field_lem id wire_type v value rest h w e =
    rw
      (
        append_assoc (varint ((id * 8 + wire_type) % 2 ^ 32)) value rest,
        decode-varint ((id * 8 + wire_type) % 2 ^ 32) (value ++ rest) (omega arith),
        e,
      )
      (ap some (λ i. record { number = number i; wire_type = kind i; value = v; behind = rest }))
  where
    number : (id * 8 + wire_type) % 2 ^ 32 / 8 ≡ id
    number = omega arith

    kind : (id * 8 + wire_type) % 2 ^ 32 % 8 ≡ wire_type
    kind = omega arith

overwrite_middle :
    (front hole back bytes : List ℕ)
    → length bytes ≡ length hole
    → overwrite (length front) bytes ((front ++ hole) ++ back) ≡ front ++ (bytes ++ back)
unfolding overwrite
overwrite_middle front hole back bytes e = rw (
  e,
  append_assoc front hole back,
  take-length-append front (hole ++ back),
  ← length-append front hole,
  ← append_assoc front hole back,
  drop-length-append (front ++ hole) back,
)

length-redundant_varint : (v n : ℕ) → 0 < n → length (redundant_varint v n) ≡ n
unfolding redundant_varint
length-redundant_varint v n h = length-redundant_loop (n - 1) (v % 2 ^ 32) ∙ omega arith

-- A SubMessage around a body that appends its content leaves what stood before alone, and writes
-- the tag, the length of the content in the reserved bytes, and the content.
pub sub_message_lem :
    (id n : ℕ) (body : List ℕ → List ℕ) (content out : List ℕ)
    → 0 < n
    → body (open_message id n out) ≡ open_message id n out ++ content
    → sub_message id n body out
      ≡ out ++ ((tag id 2 ++ redundant_varint (length content) n) ++ content)
unfolding sub_message close_message opened open_message
sub_message_lem id n body content out h e =
    rw (e, written, overwrite_middle (out ++ tag id 2) (replicate n 0) content _ same)
      (simp append_assoc)
  where
    written :
        length (((out ++ tag id 2) ++ replicate n 0) ++ content) - length (out ++ tag id 2) - n
        ≡ length content
    written = omega (
      arith,
      length-append ((out ++ tag id 2) ++ replicate n 0) content,
      length-append (out ++ tag id 2) (replicate n 0),
      length-replicate {A = ℕ} n 0,
    )

    same : length (redundant_varint (length content) n) ≡ length (replicate {A = ℕ} n 0)
    same = length-redundant_varint _ n h ∙ sym (length-replicate n 0)

-- Read back, a SubMessage of two reserved bytes and a content below 2^14 bytes is a field of wire
-- type 2 with the content's length as its value and the content behind it.
pub read_field-sub_message :
    (id : ℕ) (body : List ℕ → List ℕ) (content : List ℕ)
    → id < 2 ^ 29
    → length content < 2 ^ 14
    → body (open_message id 2 []) ≡ open_message id 2 [] ++ content
    → read_field (sub_message id 2 body [])
      ≡ some (record { number = id; wire_type = 2; value = length content; behind = content })
read_field-sub_message id body content h small e =
    rw (sub_message_lem id 2 body content [] (omega arith) e) (
      read_field_lem id 2 (length content) (redundant_varint (length content) 2) content h
        (omega arith) (decode-redundant_varint (length content) content small))

-- A `uint64` field reads back as its number, wire type 0 and the value, whatever follows.
pub read_field-uint64 :
    (id v : ℕ) (rest : List ℕ)
    → id < 2 ^ 29
    → v < 2 ^ 64
    → read_field (uint64 id v [] ++ rest)
      ≡ some (record { number = id; wire_type = 0; value = v; behind = rest })
unfolding uint64
read_field-uint64 id v rest h small =
    read_field_lem id 0 v (varint v) rest h (omega arith) (decode-varint v rest small)

-- A `string` field reads back as its number, wire type 2 and the length, with the bytes behind it.
pub read_field-string :
    (id : ℕ) (s rest : List ℕ)
    → id < 2 ^ 29
    → length s < 2 ^ 32
    → read_field (string id s [] ++ rest)
      ≡ some (record { number = id; wire_type = 2; value = length s; behind = s ++ rest })
unfolding string length_delimited
read_field-string id s rest h small =
    ap read_field regrouped
    ∙ read_field_lem id 2 (length s) (varint (length s % 2 ^ 32)) (s ++ rest) h (omega arith)
        (decode-varint (length s % 2 ^ 32) (s ++ rest) (omega arith) ∙ fits)
  where
    regrouped :
        (tag id 2 ++ (varint (length s % 2 ^ 32) ++ s)) ++ rest
        ≡ (tag id 2 ++ varint (length s % 2 ^ 32)) ++ (s ++ rest)
    regrouped = simp append_assoc

    same : length s % 2 ^ 32 ≡ length s
    same = omega arith

    fits :
        ◌≡◌ {A = Option (ℕ × List ℕ)}
          (some (length s % 2 ^ 32, s ++ rest))
          (some (length s, s ++ rest))
    fits = ap (λ n. some (n, s ++ rest)) same
