-- ===== src/Socket/Descriptor/Owners.antt =====
-- src/util/FileDescriptor.cpp: who owns a descriptor.
use nuclear.Base.{
  ℕ, ◌+◌, ◌≤◌, ◌<◌, ◌≡◌, refl, ap, [], ◌∷◌, Option, none, some, true, false, ◌==◌, ==_iff, length,
  arith, Bool-cases, inl, inr,
}
use nuclear.Socket.Descriptor.{
  Descriptors, count_fd, holds, count_objects, held, set_held, valid, construct, close_held, close,
  release, move_construct, take_over, move_assign,
}
use nuclear.Socket.Descriptor.Counts.{
  count-set_none, count-set_held, held-set_held, held-set_none, length-set_held, not-valid,
  count-remove_fd,
}

-- An open descriptor has one owner, an object or who has released it, and no other has an owner.
pub record Owned (s : Descriptors) : Type 0 where
  pub owners :
      (fd : ℕ) → count_objects fd s.objects + count_fd fd s.released ≡ count_fd fd s.open_fds
  pub once : (fd : ℕ) → count_fd fd s.open_fds ≤ 1

construct-Owned :
    (fd : ℕ) (s : Descriptors) → valid fd s.open_fds ≡ false → Owned s → Owned (construct fd s)
unfolding construct count_objects count_fd holds
construct-Owned fd s h o = record {
  owners = λ g. omega (arith, o.owners g);
  once = λ g. elim (Bool-cases (fd == g)) [
    | inl e ↦ rw e (
        omega
          (arith, ap (λ x. count_fd x s.open_fds) ((==_iff fd g).0 e), not-valid fd s.open_fds h))
    | inr n ↦ rw n (omega (arith, o.once g))
  ];
}

-- The descriptor that an object holds is open.
held-valid :
    (i fd : ℕ) (s : Descriptors) → Owned s → held i s.objects ≡ some fd → valid fd s.open_fds ≡ true
held-valid i fd s o e = elim (Bool-cases (valid fd s.open_fds)) [
  | inl v ↦ v
  | inr n ↦
      let none_open = not-valid fd s.open_fds n in
      let one : holds fd (held i s.objects) ≡ 1 =
        rw e (unfold holds in rw ((==_iff fd fd).1 refl) refl) in
      absurd (omega (arith, none_open, one, o.owners fd, count-set_none fd i s.objects))
]

-- Closing leaves an object that holds nothing.
close_held-Owned :
    (i : ℕ) (s : Descriptors) (x : Option ℕ)
    → held i s.objects ≡ x
    → Owned s
    → Owned (close_held i x s) × (held i (close_held i x s).objects ≡ none)
unfolding close_held holds
close_held-Owned i s none e o = (o, e)
close_held-Owned i s (some fd) e o = rw (held-valid i fd s o e) (
  record {
    owners = λ g. omega (
      arith,
      o.owners g,
      count-remove_fd g fd s.open_fds (held-valid i fd s o e),
      count-set_none g i s.objects,
      ap (holds g) e,
    );
    once = λ g. omega (arith, o.once g, count-remove_fd g fd s.open_fds (held-valid i fd s o e));
  },
  held-set_none i s.objects,
)

release-Owned : (i : ℕ) (s : Descriptors) → Owned s → Owned (release i s)
unfolding release holds count_fd
release-Owned i s o = record { owners = λ g. by_held g (held i s.objects) refl; once = o.once }
  where
    by_held :
        (g : ℕ) (x : Option ℕ)
        → held i s.objects ≡ x
        → count_objects g (set_held i none s.objects)
            + count_fd g (elim x [ none ↦ s.released | some fd ↦ fd ∷ s.released ])
          ≡ count_fd g s.open_fds
    by_held g none e = omega (arith, o.owners g, count-set_none g i s.objects, ap (holds g) e)
    by_held g (some fd) e = omega (arith, o.owners g, count-set_none g i s.objects, ap (holds g) e)

move_construct-Owned : (i : ℕ) (s : Descriptors) → Owned s → Owned (move_construct i s)
unfolding move_construct count_objects
move_construct-Owned i s o = record {
  owners = λ g. omega (arith, o.owners g, count-set_none g i s.objects);
  once = o.once;
}

take_over-Owned :
    (i j : ℕ) (s : Descriptors)
    → i < length s.objects
    → held i s.objects ≡ none
    → Owned s
    → Owned (take_over i j s)
unfolding take_over holds
take_over-Owned i j s h e o = record {
  owners = λ g. omega (
    arith,
    o.owners g,
    count-set_none g j s.objects,
    ap (holds g) (held-set_held i j s.objects e),
    count-set_held g i (held j s.objects) (set_held j none s.objects)
        (omega (arith, h, length-set_held j none s.objects)),
  );
  once = o.once;
}

length-close_held :
    (i : ℕ) (x : Option ℕ) (s : Descriptors) → length (close_held i x s).objects ≡ length s.objects
unfolding close_held
length-close_held i none s = refl
length-close_held i (some fd) s = elim (Bool-cases (valid fd s.open_fds)) [
  | inl y ↦ rw y (length-set_held i none s.objects)
  | inr n ↦ rw n refl
]

close-Owned :
    (i : ℕ) (s : Descriptors) → Owned s → Owned (close i s) × (held i (close i s).objects ≡ none)
unfolding close
close-Owned i s o = close_held-Owned i s (held i s.objects) refl o

move_assign-Owned :
    (i j : ℕ) (s : Descriptors) → i < length s.objects → Owned s → Owned (move_assign i j s)
unfolding move_assign close
move_assign-Owned i j s h o = elim (Bool-cases (i == j)) [
  | inl y ↦ rw y o
  | inr n ↦
      let (closed, empty) = close-Owned i s o in
      rw n (
        take_over-Owned i j (close i s) (omega (arith, h, length-close_held i (held i s.objects) s))
          empty closed)
]

-- What may happen to objects; the system opens a descriptor that is not open.
pub data Step (s : Descriptors) : Descriptors → Type 0 where
  opens : (fd : ℕ) → valid fd s.open_fds ≡ false → Step s (construct fd s)
  closes : (i : ℕ) → Step s (close i s)
  releases : (i : ℕ) → Step s (release i s)
  moves : (i : ℕ) → Step s (move_construct i s)
  assigns : (i j : ℕ) → i < length s.objects → Step s (move_assign i j s)

pub data Reach : Descriptors → Type 0 where
  no_objects : Reach record { objects = []; open_fds = []; released = []; closed = [] }
  later : {s t : Descriptors} → Reach s → Step s t → Reach t

Step-Owned : {s t : Descriptors} → Step s t → Owned s → Owned t
Step-Owned {s} (opens fd h) o = construct-Owned fd s h o
Step-Owned {s} (closes i) o = (close-Owned i s o).0
Step-Owned {s} (releases i) o = release-Owned i s o
Step-Owned {s} (moves i) o = move_construct-Owned i s o
Step-Owned {s} (assigns i j h) o = move_assign-Owned i j s h o

Reach-Owned_lem : {s : Descriptors} → Reach s → Owned s
unfolding count_objects count_fd
Reach-Owned_lem no_objects = record { owners = λ g. refl; once = λ g. omega arith }
Reach-Owned_lem (later r st) = Step-Owned st (Reach-Owned_lem r)

closes_once :
    (i fd : ℕ) (s : Descriptors) (x : Option ℕ)
    → x ≡ some fd
    → valid fd s.open_fds ≡ true
    → (close_held i x s).closed ≡ fd ∷ s.closed
unfolding close_held
closes_once i fd s x e v = rw (e, close_held) (rw v refl)

-- However objects are made of open descriptors, moved, assigned, closed, destroyed and released: a
-- descriptor that is open is held by exactly one object, or was released and is held by none, and what
-- an object holds is open; closing or destroying that object closes it.
pub Reach-Owned :
    {s : Descriptors}
    → Reach s
    → Owned s × ((i fd : ℕ) → held i s.objects ≡ some fd → (close i s).closed ≡ fd ∷ s.closed)
unfolding close
Reach-Owned {s} r =
    let o = Reach-Owned_lem r in
    (o, λ i fd e. closes_once i fd s (held i s.objects) e (held-valid i fd s o e))
