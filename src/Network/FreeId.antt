-- ===== src/Network/FreeId.antt =====
-- The search for a free packet id in `send` of src/extension/network/NUClearNetwork.cpp.
use nuclear.Base.{
  ℕ, zero, suc, ◌+◌, ◌%◌, ◌^◌, ◌≤◌, ◌<◌, ◌==◌, ◌≡◌, refl, sym, subst, ◌∙◌, List, [], ◌∷◌, none,
  some, false, length, arith, Bool-cases, Option-cases, inl, inr, if◌then◌else◌,
}
use mathlib.Core.Option.{some-injective}
use nuclear.Network.State.{PacketQueue, lookup}
use nuclear.Network.Send.{free_id}

-- The queue without the entries of an id.
without : ℕ → List (ℕ × PacketQueue) → List (ℕ × PacketQueue)
without key [] = []
without key ((j, q) ∷ rest) =
    let kept = without key rest in if j == key then kept else (j, q) ∷ kept

lookup-without :
    (key k : ℕ) (queue : List (ℕ × PacketQueue))
    → (k == key) ≡ false
    → lookup k (without key queue) ≡ lookup k queue
unfolding lookup without
lookup-without key k [] h = refl
lookup-without key k ((j, q) ∷ rest) h = elim (Bool-cases (j == key)) [
  | inl e ↦
      let other : (j == k) ≡ false = ground (arith, e, h) in
      rw (e, other) (lookup-without key k rest h)
  | inr e ↦ elim (Bool-cases (j == k)) [
    | inl d ↦ rw (e, d, lookup) refl
    | inr d ↦ rw (e, d, lookup) (lookup-without key k rest h)
  ]
]

length-without_le :
    (key : ℕ) (queue : List (ℕ × PacketQueue)) → length (without key queue) ≤ length queue
unfolding without
length-without_le key [] = omega arith
length-without_le key ((j, q) ∷ rest) = elim (Bool-cases (j == key)) [
  | inl e ↦ rw e (omega (arith, length-without_le key rest))
  | inr e ↦ rw e (omega (arith, length-without_le key rest))
]

length-without :
    (key : ℕ) (queue : List (ℕ × PacketQueue)) (found : PacketQueue)
    → lookup key queue ≡ some found
    → length (without key queue) < length queue
unfolding lookup without
length-without key [] found h = absurd (cc)
length-without key ((j, q) ∷ rest) found h = elim (Bool-cases (j == key)) [
  | inl e ↦ rw e (omega (arith, length-without_le key rest))
  | inr e ↦
      let w : (if j == key then some q else lookup key rest) ≡ lookup key rest = rw e refl in
      rw e (omega (arith, length-without key rest found (sym w ∙ h)))
]

-- The ids behind `key` do not come back to it in fewer than 2^16 rounds.
free_id-without :
    (fuel d key source : ℕ) (queue : List (ℕ × PacketQueue))
    → key < 2 ^ 16
    → d + fuel < 2 ^ 16
    → source ≡ (key + d) % 2 ^ 16
    → free_id fuel source (without key queue) ≡ free_id fuel source queue
unfolding free_id
free_id-without zero d key source queue k h e = refl
free_id-without (suc fuel) d key source queue k h e =
    let n = (source + 1) % 2 ^ 16 in
    let step : n ≡ (key + suc d) % 2 ^ 16 = omega (arith, e) in
    let other : (n == key) ≡ false = ground (arith, step, h, k) in
    elim (Option-cases (lookup n queue)) [
      | inl c ↦ rw (lookup-without key n queue other, c, free_id) refl
      | inr (q, c) ↦
          rw (lookup-without key n queue other, c, free_id)
            (free_id-without fuel (suc d) key n queue k (omega (arith, h)) step)
    ]

-- A search that fails has met a queued packet in each round.
free_id_fails :
    (fuel source : ℕ) (queue : List (ℕ × PacketQueue))
    → fuel ≤ 2 ^ 16
    → free_id fuel source queue ≡ none
    → fuel ≤ length queue
unfolding free_id
free_id_fails zero source queue f e = omega arith
free_id_fails (suc fuel) source queue f e =
    let n = (source + 1) % 2 ^ 16 in
    elim (Option-cases (lookup n queue)) [
      | inl c ↦
          let w : free_id (suc fuel) source queue ≡ some n = rw (c, free_id) refl in absurd (cc)
      | inr (q, c) ↦
          let w : free_id (suc fuel) source queue ≡ free_id fuel n queue = rw (c, free_id) refl in
          let kept : free_id fuel n (without n queue) ≡ free_id fuel n queue =
            free_id-without fuel 0 n n queue (omega arith) (omega (arith, f)) (omega arith) in
          let fewer : fuel ≤ length (without n queue) =
            free_id_fails fuel n (without n queue) (omega (arith, f)) (kept ∙ sym w ∙ e) in
          omega (arith, fewer, length-without n queue q c)
    ]

free_id-free :
    (fuel source id : ℕ) (queue : List (ℕ × PacketQueue))
    → free_id fuel source queue ≡ some id
    → lookup id queue ≡ none
unfolding free_id
free_id-free zero source id queue e = absurd (cc)
free_id-free (suc fuel) source id queue e =
    let n = (source + 1) % 2 ^ 16 in
    elim (Option-cases (lookup n queue)) [
      | inl c ↦
          let w : free_id (suc fuel) source queue ≡ some n = rw (c, free_id) refl in
          subst (λ m. lookup m queue ≡ none) (some-injective n id (sym w ∙ e)) c
      | inr (q, c) ↦
          let w : free_id (suc fuel) source queue ≡ free_id fuel n queue = rw (c, free_id) refl in
          free_id-free fuel n id queue (sym w ∙ e)
    ]

-- As long as fewer than 2^16 packets wait for acknowledgements, the search for a packet id ends, with
-- an id that no waiting packet has.
pub free_id_terminates :
    (source : ℕ) (queue : List (ℕ × PacketQueue))
    → length queue < 2 ^ 16
    → (id : ℕ) × (free_id (2 ^ 16) source queue ≡ some id) × (lookup id queue ≡ none)
free_id_terminates source queue h = elim (Option-cases (free_id (2 ^ 16) source queue)) [
  | inl e ↦ absurd (omega (arith, h, free_id_fails (2 ^ 16) source queue (omega arith) e))
  | inr (id, e) ↦ (id, e, free_id-free (2 ^ 16) source id queue e)
]
