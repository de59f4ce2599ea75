-- ===== src/Network/Targets/Listed.antt =====
-- The three lists of targets of src/extension/network/NUClearNetwork.hpp describe the same targets:
-- by identity, by address and by name.
use nuclear.Base.{
  ℕ, suc, ◌<◌, ◌≡◌, refl, ap, sym, ◌∙◌, List, [], ◌∷◌, ◌++◌, true, false, ◌||◌, none, some, ◌==◌,
  arith, inl, inr, Bool-cases,
}
use nuclear.Network.State.{udp_key, NetworkTarget, same_bytes, contains}
use nuclear.Network.Targets.{find_key, erase_key, erase_name, erase_target}

pub same_bytes_refl : (xs : List ℕ) → same_bytes xs xs ≡ true
unfolding same_bytes
same_bytes_refl [] = refl
same_bytes_refl (x ∷ xs) = ground (arith, same_bytes_refl xs)

pub same_bytes_eq : (xs ys : List ℕ) → same_bytes xs ys ≡ true → xs ≡ ys
unfolding same_bytes
same_bytes_eq [] [] h = refl
same_bytes_eq [] (y ∷ ys) h = cc
same_bytes_eq (x ∷ xs) [] h = cc
same_bytes_eq (x ∷ xs) (y ∷ ys) h = ground (arith, same_bytes_eq xs ys)

module _ {F : Type 0} (h : ℕ → NetworkTarget F) (bound : ℕ) where
  -- Entry by entry the lists name the same target, under the key of its address and its name; no
  -- target and no key comes twice, and every target was allocated.
  abbrev pub Listed : List ℕ → List (List ℕ × ℕ) → List (List ℕ × ℕ) → Type 0
  Listed [] [] [] = Unit {0}
  Listed (id ∷ ids) ((k, i) ∷ us) ((name, j) ∷ ns) =
      (id < bound)
      × (udp_key (h id).target ≡ some k)
      × (i ≡ id)
      × (name ≡ (h id).name)
      × (j ≡ id)
      × (contains id ids ≡ false)
      × (find_key k us ≡ none)
      × Listed ids us ns
  Listed _ _ _ = ⊥

  -- A listed target is found under its key.
  pub find_key-Listed :
      (ids : List ℕ) (us ns : List (List ℕ × ℕ)) (id : ℕ) (k : List ℕ)
      → Listed ids us ns
      → contains id ids ≡ true
      → udp_key (h id).target ≡ some k
      → find_key k us ≡ some id
  unfolding find_key contains
  find_key-Listed [] us ns id k l c e = cc
  find_key-Listed (x ∷ ids) ((j, i) ∷ us) ((name, y) ∷ ns) id k l c e =
      ground (arith, same_bytes_refl k, same_bytes_eq j k, find_key-Listed ids us ns id k l.7)
  find_key-Listed (x ∷ ids) [] ns id k l c e = absurd l
  find_key-Listed (x ∷ ids) (u ∷ us) [] id k l c e = absurd l

  -- The address of a listed target has a key.
  pub Listed-key :
      (ids : List ℕ) (us ns : List (List ℕ × ℕ)) (id : ℕ)
      → Listed ids us ns
      → contains id ids ≡ true
      → (k : List ℕ) × (udp_key (h id).target ≡ some k)
  unfolding contains
  Listed-key [] us ns id l c = absurd (ground arith)
  Listed-key (x ∷ ids) ((j, i) ∷ us) ((name, y) ∷ ns) id l c = elim (Bool-cases (x == id)) [
    | inl hit ↦ (j, ground arith)
    | inr miss ↦ Listed-key ids us ns id l.7 (ground arith)
  ]
  Listed-key (x ∷ ids) [] ns id l c = absurd l
  Listed-key (x ∷ ids) (u ∷ us) [] id l c = absurd l

  -- And what is found under a key is listed, with that key.
  pub find_key_sound :
      (ids : List ℕ) (us ns : List (List ℕ × ℕ)) (id : ℕ) (k : List ℕ)
      → Listed ids us ns
      → find_key k us ≡ some id
      → (contains id ids ≡ true) × (udp_key (h id).target ≡ some k)
  unfolding find_key contains
  find_key_sound [] [] [] id k l e = cc
  find_key_sound (x ∷ ids) ((j, i) ∷ us) ((name, y) ∷ ns) id k l e =
      ground (arith, same_bytes_eq j k, find_key_sound ids us ns id k l.7)
  find_key_sound [] (u ∷ us) ns id k l e = absurd l
  find_key_sound [] [] (x ∷ ns) id k l e = absurd l
  find_key_sound (x ∷ ids) [] ns id k l e = absurd l
  find_key_sound (x ∷ ids) (u ∷ us) [] id k l e = absurd l

contains-erase :
    (x id : ℕ) (ids : List ℕ) → contains x ids ≡ false → contains x (erase_target id ids) ≡ false
unfolding contains erase_target
contains-erase x id [] h = refl
contains-erase x id (y ∷ ids) h = ground (arith, contains-erase x id ids)

find_key-erase :
    (j k : List ℕ) (us : List (List ℕ × ℕ))
    → find_key j us ≡ none
    → find_key j (erase_key k us) ≡ none
unfolding find_key erase_key
find_key-erase j k [] h = refl
find_key-erase j k ((i, id) ∷ us) h = ground (arith, find_key-erase j k us)

module _ {F : Type 0} (h : ℕ → NetworkTarget F) (bound : ℕ) where
  -- Erasing a listed target from the three lists leaves them agreeing, without it.
  pub Listed-erase :
      (ids : List ℕ) (us ns : List (List ℕ × ℕ)) (id : ℕ) (k : List ℕ)
      → Listed h bound ids us ns
      → contains id ids ≡ true
      → udp_key (h id).target ≡ some k
      → Listed h bound (erase_target id ids) (erase_key k us) (erase_name (h id).name id ns)
        × (contains id (erase_target id ids) ≡ false)
  unfolding erase_target erase_key erase_name contains
  Listed-erase [] us ns id k l c e = cc
  Listed-erase (x ∷ ids) ((j, i) ∷ us) ((name, y) ∷ ns) id k l c e = elim (Bool-cases (x == id)) [
    | inl hit ↦ ground (arith, same_bytes_refl k, same_bytes_refl name)
    | inr miss ↦ ground (
      arith,
      same_bytes_eq j k,
      find_key-Listed h bound ids us ns id k l.7,
      contains-erase x id ids,
      find_key-erase j k us,
      Listed-erase ids us ns id k l.7,
    )
  ]
  Listed-erase (x ∷ ids) [] ns id k l c e = absurd l
  Listed-erase (x ∷ ids) (u ∷ us) [] id k l c e = absurd l

  contains_fresh :
      (ids : List ℕ) (us ns : List (List ℕ × ℕ))
      → Listed h bound ids us ns
      → contains bound ids ≡ false
  unfolding contains
  contains_fresh [] us ns l = refl
  contains_fresh (x ∷ ids) ((j, i) ∷ us) ((name, y) ∷ ns) l =
      ground (arith, contains_fresh ids us ns l.7)
  contains_fresh (x ∷ ids) [] ns l = absurd l
  contains_fresh (x ∷ ids) (u ∷ us) [] l = absurd l

contains-snoc : (x y : ℕ) (ids : List ℕ) → contains x (ids ++ y ∷ []) ≡ (contains x ids || y == x)
unfolding contains
contains-snoc x y [] = ground arith
contains-snoc x y (z ∷ ids) = ground (arith, contains-snoc x y ids)

find_key-snoc :
    (j k : List ℕ) (id : ℕ) (us : List (List ℕ × ℕ))
    → find_key j us ≡ none
    → same_bytes k j ≡ false
    → find_key j (us ++ (k, id) ∷ []) ≡ none
unfolding find_key
find_key-snoc j k id [] h e = ground arith
find_key-snoc j k id ((i, x) ∷ us) h e = ground (arith, find_key-snoc j k id us)

-- The lists depend on the heap by the address and the name of the listed targets only.
pub Listed-heap :
    {F : Type 0} (h g : ℕ → NetworkTarget F) (bound : ℕ) (ids : List ℕ) (us ns : List (List ℕ × ℕ))
    → ((i : ℕ) → i < bound → ((g i).target ≡ (h i).target) × ((g i).name ≡ (h i).name))
    → Listed h bound ids us ns
    → Listed g bound ids us ns
Listed-heap h g bound [] [] [] same l = tt
Listed-heap h g bound (x ∷ ids) ((j, i) ∷ us) ((name, y) ∷ ns) same l = (
  l.0,
  ap udp_key (same x l.0).0 ∙ l.1,
  l.2,
  l.3 ∙ sym (same x l.0).1,
  l.4,
  l.5,
  l.6,
  Listed-heap h g bound ids us ns same l.7,
)
Listed-heap h g bound [] (u ∷ us) ns same l = absurd l
Listed-heap h g bound [] [] (x ∷ ns) same l = absurd l
Listed-heap h g bound (x ∷ ids) [] ns same l = absurd l
Listed-heap h g bound (x ∷ ids) (u ∷ us) [] same l = absurd l

-- A target that was just allocated goes to the end of the lists under a new key.
pub Listed-snoc :
    {F : Type 0} (h : ℕ → NetworkTarget F) (bound : ℕ) (ids : List ℕ) (us ns : List (List ℕ × ℕ))
    (k : List ℕ)
    → udp_key (h bound).target ≡ some k
    → find_key k us ≡ none
    → Listed h bound ids us ns
    → Listed h
        (suc bound)
        (ids ++ bound ∷ [])
        (us ++ (k, bound) ∷ [])
        (ns ++ ((h bound).name, bound) ∷ [])
unfolding find_key contains
Listed-snoc h bound [] [] [] k e f l = (omega arith, e, refl, refl, refl, refl, refl, tt)
Listed-snoc h bound (x ∷ ids) ((j, i) ∷ us) ((name, y) ∷ ns) k e f l = (
  omega (arith, l.0),
  l.1,
  l.2,
  l.3,
  l.4,
  ground (arith, contains-snoc x bound ids),
  ground (arith, find_key-snoc j k bound us, same_bytes_eq k j, same_bytes_refl j),
  Listed-snoc h bound ids us ns k e (ground arith) l.7,
)
Listed-snoc h bound [] (u ∷ us) ns k e f l = absurd l
Listed-snoc h bound [] [] (x ∷ ns) k e f l = absurd l
Listed-snoc h bound (x ∷ ids) [] ns k e f l = absurd l
Listed-snoc h bound (x ∷ ids) (u ∷ us) [] k e f l = absurd l
