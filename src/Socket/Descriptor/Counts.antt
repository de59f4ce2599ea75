-- ===== src/Socket/Descriptor/Counts.antt =====
-- src/util/FileDescriptor.cpp: how often a descriptor is held and open.
use nuclear.Base.{
  ℕ, zero, suc, ◌+◌, ◌<◌, ◌≡◌, refl, ap, List, [], ◌∷◌, Option, none, true, false, ◌==◌, ==_iff,
  length, arith, Bool-cases, inl, inr,
}
use nuclear.Socket.Descriptor.{
  is_fd, count_fd, holds, count_objects, held, set_held, valid, remove_fd,
}

pub count-set_none :
    (fd i : ℕ) (os : List (Option ℕ))
    → count_objects fd (set_held i none os) + holds fd (held i os) ≡ count_objects fd os
unfolding count_objects holds set_held held
count-set_none fd i [] = refl
count-set_none fd zero (o ∷ os) = omega arith
count-set_none fd (suc i) (o ∷ os) = omega (arith, count-set_none fd i os)

pub count-set_held :
    (fd i : ℕ) (x : Option ℕ) (os : List (Option ℕ))
    → i < length os
    → count_objects fd (set_held i x os) + holds fd (held i os) ≡ count_objects fd os + holds fd x
unfolding count_objects set_held held
count-set_held fd i x [] h = absurd (omega arith)
count-set_held fd zero x (o ∷ os) h = omega arith
count-set_held fd (suc i) x (o ∷ os) h = omega (arith, count-set_held fd i x os (omega arith))

pub held-set_held :
    (i j : ℕ) (os : List (Option ℕ)) → held i os ≡ none → held i (set_held j none os) ≡ none
unfolding held set_held
held-set_held i j [] h = refl
held-set_held zero zero (o ∷ os) h = refl
held-set_held zero (suc j) (o ∷ os) h = h
held-set_held (suc i) zero (o ∷ os) h = h
held-set_held (suc i) (suc j) (o ∷ os) h = held-set_held i j os h

pub held-set_none : (i : ℕ) (os : List (Option ℕ)) → held i (set_held i none os) ≡ none
unfolding held set_held
held-set_none i [] = refl
held-set_none zero (o ∷ os) = refl
held-set_none (suc i) (o ∷ os) = held-set_none i os

pub length-set_held :
    (i : ℕ) (x : Option ℕ) (os : List (Option ℕ)) → length (set_held i x os) ≡ length os
unfolding set_held
length-set_held i x [] = refl
length-set_held zero x (o ∷ os) = refl
length-set_held (suc i) x (o ∷ os) = ap suc (length-set_held i x os)

-- What `valid` says, and what closing changes.
pub not-valid : (fd : ℕ) (xs : List ℕ) → valid fd xs ≡ false → count_fd fd xs ≡ 0
unfolding valid count_fd
not-valid fd [] h = refl
not-valid fd (x ∷ xs) h = ground (arith, not-valid fd xs)

pub count-remove_fd :
    (g fd : ℕ) (xs : List ℕ)
    → valid fd xs ≡ true
    → count_fd g (remove_fd fd xs) + is_fd g fd ≡ count_fd g xs
unfolding valid count_fd remove_fd
count-remove_fd g fd [] h = absurd (cc)
count-remove_fd g fd (x ∷ xs) h = elim (Bool-cases (x == fd)) [
  | inl e ↦ rw (e, (==_iff x fd).0 e) (omega arith)
  | inr n ↦ rw n (omega (arith, count-remove_fd g fd xs (rw n at h)))
]
