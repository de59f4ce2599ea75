-- ===== src/Network/Fragment/Assembly.antt =====
-- The map of fragments of an assembler in src/extension/network/NUClearNetwork.cpp, filled in any order
-- and with repetitions: what `store_part` inserts, until it finds the assembler full.
use nuclear.Base.{
  ℕ, suc, ◌+◌, ◌-◌, ◌<◌, ◌≤◌, ◌≡◌, refl, ◌∙◌, List, [], ◌∷◌, none, some, length, ◌==◌,
  if◌then◌else◌, arith, ◌≢◌, inl, inr, Bool-cases, dec_lt, true, ◌/◌, ◌^◌,
}
use nuclear.Network.State.{Parts, lookup, insert, contains}
use nuclear.Network.Fragment.{join_parts, chunk, packet_count}
use nuclear.Network.Fragment.Cutting.{join_from, join_from-chunk}

-- Fragment by fragment, in order of arrival.
unfoldable pub fill : (ℕ → List ℕ) → List ℕ → Parts → Parts
fill f [] parts = parts
fill f (n ∷ ns) parts = fill f ns (insert n (f n) parts)

-- The numbers of the fragments rise from a bound and stay below the count, and each fragment is the
-- one of its number.
abbrev pub Assembles : (ℕ → List ℕ) → ℕ → ℕ → Parts → Type 0
Assembles f count lo [] = Unit {0}
Assembles f count lo ((n, c) ∷ parts) =
    (lo ≤ n) × (n < count) × (c ≡ f n) × Assembles f count (suc n) parts

module _ (f : ℕ → List ℕ) (count : ℕ) where
  pub insert-Assembles :
      (n lo : ℕ) (parts : Parts)
      → n < count
      → lo ≤ n
      → Assembles f count lo parts
      → Assembles f count lo (insert n (f n) parts)
  unfolding insert
  insert-Assembles n lo [] h l a = (l, h, refl, tt)
  insert-Assembles n lo ((j, c) ∷ parts) h l a = ground (arith, insert-Assembles n (suc j) parts)

  pub length-Assembles :
      (lo : ℕ) (parts : Parts) → Assembles f count lo parts → length parts ≤ count - lo
  length-Assembles lo [] a = omega arith
  length-Assembles lo ((j, c) ∷ parts) a = omega (arith, length-Assembles (suc j) parts a.3)

  full-join :
      (lo : ℕ) (parts : Parts)
      → Assembles f count lo parts
      → length parts ≡ count - lo
      → join_parts parts ≡ join_from f lo (length parts)
  unfolding join_parts join_from
  full-join lo [] a e = refl
  full-join lo ((j, c) ∷ parts) a e =
      ground (arith, length-Assembles (suc j) parts a.3, full-join (suc j) parts a.3)

  lookup_below :
      (i lo : ℕ) (parts : Parts) → i < lo → Assembles f count lo parts → lookup i parts ≡ none
  unfolding lookup
  lookup_below i lo [] h a = refl
  lookup_below i lo ((j, c) ∷ parts) h a = ground (arith, lookup_below i (suc j) parts)

  -- With every number below the count at hand, nothing is missing.
  length-full :
      (lo : ℕ) (parts : Parts)
      → lo ≤ count
      → Assembles f count lo parts
      → ((i : ℕ) → lo ≤ i → i < count → lookup i parts ≢ none)
      → length parts ≡ count - lo
  unfolding lookup
  length-full lo [] h a all = elim (dec_lt lo count) [
    | yes lt ↦ absurd (all lo (omega arith) lt refl)
    | no ge ↦ omega arith
  ]
  length-full lo ((j, c) ∷ parts) h a all = elim (dec_lt lo j) [
    | yes lt ↦ absurd (
        all lo (omega arith) (omega arith)
          (lookup_below lo j ((j, c) ∷ parts) lt (omega arith, a.1, a.2, a.3)))
    | no ge ↦ omega (
      arith,
      length-full (suc j) parts (omega arith) a.3 (λ i l u e. all i (omega arith) u (ground arith)),
    )
  ]

  pub fill-Assembles :
      (ns : List ℕ) (parts : Parts)
      → ((n : ℕ) → contains n ns ≡ true → n < count)
      → Assembles f count 0 parts
      → Assembles f count 0 (fill f ns parts)
  unfolding fill contains
  fill-Assembles [] parts h a = a
  fill-Assembles (n ∷ ns) parts h a =
      fill-Assembles ns (insert n (f n) parts) (λ k e. h k (ground arith))
        (insert-Assembles n 0 parts (h n (ground arith)) (omega arith) a)

pub lookup-insert :
    {A : Type 0} (stored wanted : ℕ) (c : A) (parts : List (ℕ × A))
    → lookup wanted (insert stored c parts)
      ≡ (if stored == wanted then some c else lookup wanted parts)
unfolding insert lookup
lookup-insert stored wanted c [] = refl
lookup-insert stored wanted c ((n, d) ∷ parts) = ground (arith, lookup-insert stored wanted c parts)

lookup-fill_kept :
    (f : ℕ → List ℕ) (i : ℕ) (ns : List ℕ) (parts : Parts)
    → lookup i parts ≢ none
    → lookup i (fill f ns parts) ≢ none
unfolding fill
lookup-fill_kept f i [] parts h = h
lookup-fill_kept f i (n ∷ ns) parts h =
    lookup-fill_kept f i ns (insert n (f n) parts)
      (λ e. ground (arith, lookup-insert n i (f n) parts))

lookup-fill :
    (f : ℕ → List ℕ) (i : ℕ) (ns : List ℕ) (parts : Parts)
    → contains i ns ≡ true
    → lookup i (fill f ns parts) ≢ none
unfolding fill contains
lookup-fill f i [] parts h = cc
lookup-fill f i (n ∷ ns) parts h = elim (Bool-cases (n == i)) [
  | inl hit ↦
      lookup-fill_kept f i ns (insert n (f n) parts)
        (λ e. ground (arith, lookup-insert n i (f n) parts))
  | inr miss ↦ lookup-fill f i ns (insert n (f n) parts) (ground arith)
]

module _ (mtu : ℕ) (payload : List ℕ) where
  abbrev count_of : ℕ
  count_of = packet_count mtu payload

  abbrev chunk_of : ℕ → List ℕ
  chunk_of = chunk mtu count_of payload

  -- However the fragments of a payload arrive, in any order and repeated: as soon as the assembler
  -- holds as many fragments as the packet count, their join is the payload.
  pub join_parts-fill :
      (arrivals : List ℕ)
      → length payload / mtu + 1 < 2 ^ 16
      → ((n : ℕ) → contains n arrivals ≡ true → n < count_of)
      → length (fill chunk_of arrivals []) ≡ count_of
      → join_parts (fill chunk_of arrivals []) ≡ payload
  join_parts-fill arrivals small known e =
      full-join chunk_of count_of 0 _ (fill-Assembles chunk_of count_of arrivals [] known tt)
        (omega arith)
      ∙ rw e (join_from-chunk mtu payload small)

  -- Once every fragment has arrived, in any order and repeated, the assembler holds as many
  -- fragments as the packet count.
  pub length-fill :
      (arrivals : List ℕ)
      → ((n : ℕ) → contains n arrivals ≡ true → n < count_of)
      → ((n : ℕ) → n < count_of → contains n arrivals ≡ true)
      → length (fill chunk_of arrivals []) ≡ count_of
  length-fill arrivals known all = omega (
    arith,
    length-full chunk_of count_of 0 _ (omega arith)
        (fill-Assembles chunk_of count_of arrivals [] known tt)
        (λ i _ lt. lookup-fill chunk_of i arrivals [] (all i lt)),
  )
