-- ===== src/Network/Bits/Laws.antt =====
-- The test for a full acknowledgement in `process_packet` of
-- src/extension/network/NUClearNetwork.cpp.
use nuclear.Base.{
  ℕ, zero, suc, ◌+◌, ◌/◌, ◌%◌, ◌<◌, ◌≡◌, ◌≢◌, ◌↔◌, refl, ap, List, [], ◌∷◌, Bool, true, false, ◌&&◌,
  ◌||◌, not, length, get_or, arith, subst, inl, inr, Bool-cases,
}
use native.Mathlib.Nat.{add-zero, zero-add}
use nuclear.Network.Bits.{bit_room, expected, all_acked_from, all_acked}

-- The value of the last test and of the tests before it.
and_split : (a b : Bool) → (a && b) ≡ true → (a ≡ true) × (b ≡ true)
and_split true b h = (refl, h)
and_split false b h = cc

and_join : (a b : Bool) → a ≡ true → b ≡ true → (a && b) ≡ true
and_join a b p q = rw (p, q)

implies_elim : (a b : Bool) → (not a || b) ≡ true → a ≡ true → b ≡ true
implies_elim true b h e = h
implies_elim false b h e = cc

implies_intro : (a b : Bool) → (a ≡ true → b ≡ true) → (not a || b) ≡ true
implies_intro true b h = h refl
implies_intro false b h = refl

-- `all_acked_from` as a statement about the bits.
abbrev Covers : ℕ → ℕ → ℕ → List Bool → Type 0
Covers count bytes j bits =
    (i : ℕ) → i < length bits → expected count bytes (j + i) ≡ true → get_or bits i false ≡ true

shift : (j i : ℕ) → suc j + i ≡ j + suc i
shift j i = omega arith

all_acked_from-Covers :
    (count bytes j : ℕ) (bits : List Bool)
    → all_acked_from count bytes j bits ≡ true
    → Covers count bytes j bits
unfolding all_acked_from
all_acked_from-Covers count bytes j [] h i lt e = elim lt [ ]
all_acked_from-Covers count bytes j (b ∷ bits) h zero lt e =
    implies_elim (expected count bytes j) b (and_split _ _ h).0
      (subst (λ k. expected count bytes k ≡ true) (add-zero j) e)
all_acked_from-Covers count bytes j (b ∷ bits) h (suc i) lt e =
    all_acked_from-Covers count bytes (suc j) bits (and_split _ _ h).1 i (omega arith)
      (rw (shift j i) e)

Covers-all_acked_from :
    (count bytes j : ℕ) (bits : List Bool)
    → Covers count bytes j bits
    → all_acked_from count bytes j bits ≡ true
unfolding all_acked_from
Covers-all_acked_from count bytes j [] h = refl
Covers-all_acked_from count bytes j (b ∷ bits) h =
    and_join (not (expected count bytes j) || b) (all_acked_from count bytes (suc j) bits)
      (implies_intro _ b (λ e. h 0 (omega arith) (rw (add-zero j) e)))
      (Covers-all_acked_from count bytes (suc j) bits
        (λ i lt e. h (suc i) (omega arith) (rw (← shift j i) e)))

expected_lem :
    (count i : ℕ)
    → count % 8 ≢ 0
    → i < bit_room count
    → (expected count (bit_room count / 8) i ≡ true) ↔ (i < count)
unfolding expected
expected_lem count i ne lt = (λ e. ground arith, λ e. ground arith)

-- A bitset of the right size, for a packet count that is no multiple of eight, counts as fully
-- acknowledged exactly when the bit of every packet is set.
pub all_acked_iff :
    (count : ℕ) (bits : List Bool)
    → length bits ≡ bit_room count
    → count % 8 ≢ 0
    → (all_acked count bits ≡ true) ↔ ((i : ℕ) → i < count → get_or bits i false ≡ true)
unfolding all_acked
all_acked_iff count bits size ne = (
  λ h i lt.
      all_acked_from-Covers count (length bits / 8) 0 bits h i (omega arith)
        (rw (size, zero-add) ((expected_lem count i ne (omega arith)).1 lt)),
  λ h. Covers-all_acked_from count (length bits / 8) 0 bits (λ i lt e. h i (
      (expected_lem count i ne (omega arith)).0 (
        subst (λ k. expected count k i ≡ true) (ap (λ n. n / 8) size)
          (subst (λ k. expected count (length bits / 8) k ≡ true) (zero-add i) e)))),
)

expected_last : (count : ℕ) → count % 8 ≡ 0 → expected count (bit_room count / 8) count ≡ true
unfolding expected
expected_last count e = ground arith

-- For a multiple of eight packets the bit behind the last packet is needed as well: as long as it is
-- clear the bitset never counts as fully acknowledged, whatever the bits of the packets are.
pub all_acked_multiple :
    (count : ℕ) (bits : List Bool)
    → length bits ≡ bit_room count
    → count % 8 ≡ 0
    → get_or bits count false ≡ false
    → all_acked count bits ≡ false
unfolding all_acked
all_acked_multiple count bits size e clear = elim (Bool-cases (all_acked count bits)) [
  | inl h ↦ cc (
    clear,
    all_acked_from-Covers count (length bits / 8) 0 bits h count (omega arith)
        (rw (size, zero-add) (expected_last count e)),
  )
  | inr h ↦ h
]
