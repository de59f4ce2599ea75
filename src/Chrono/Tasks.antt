-- ===== src/Chrono/Tasks.antt =====
-- src/dsl/operation/ChronoTask.hpp, and the heap of tasks: a sorted array, which is one of the heaps that
-- the standard library's algorithms may leave. No statement is about the order of tasks at one time.
use nuclear.Base.{
  ℕ, ◌+◌, ◌≡◌, refl, ap, ◌∙◌, List, [], ◌∷◌, ◌++◌, arith, Bool, Bool-cases, if◌then◌else◌, inl, inr,
}
use nuclear.Base.Int.{ℤ, ltb_ℤ, ◌≤ℤ◌}

-- `ChronoTask`; the function returns whether to renew the task, and the time it leaves in its
-- reference.
pub record ChronoTask : Type 0 where
  pub task : ℤ → Bool × ℤ
  pub time : ℤ
  pub id : ℕ

-- `operator()`: whether to renew, and the task with its new time.
unfoldable pub call : ChronoTask → Bool × ChronoTask
call t = ((t.task t.time).0, record t { time = (t.task t.time).1 })

-- `operator<` and `operator>`.
unfoldable pub sooner : ChronoTask → ChronoTask → Bool
sooner a b = ltb_ℤ a.time b.time

unfoldable pub later : ChronoTask → ChronoTask → Bool
later a b = ltb_ℤ b.time a.time

unfoldable pub insert_task : ChronoTask → List ChronoTask → List ChronoTask
insert_task t [] = t ∷ []
insert_task t (x ∷ xs) = let rest = insert_task t xs in if later t x then x ∷ rest else t ∷ x ∷ xs

-- `std::make_heap`.
unfoldable pub make_heap : List ChronoTask → List ChronoTask
make_heap [] = []
make_heap (x ∷ xs) = insert_task x (make_heap xs)

-- `std::push_heap`, after the task was pushed to the back.
abbrev pub push_heap : List ChronoTask → List ChronoTask
push_heap tasks = make_heap tasks

-- `std::pop_heap`: the front goes to the back, and the others become a heap.
unfoldable pub pop_heap : List ChronoTask → List ChronoTask
pop_heap [] = []
pop_heap (x ∷ xs) = make_heap xs ++ x ∷ []

unfoldable pub pop_back : List ChronoTask → List ChronoTask
pop_back [] = []
pop_back (x ∷ []) = []
pop_back (x ∷ y ∷ xs) = x ∷ pop_back (y ∷ xs)

-- No task is sooner than the time.
abbrev pub NoneBefore : ℤ → List ChronoTask → Type 0
NoneBefore time [] = Unit {0}
NoneBefore time (x ∷ xs) = (time ≤ℤ x.time) × NoneBefore time xs

-- What a heap promises of its front.
abbrev pub FrontFirst : List ChronoTask → Type 0
FrontFirst [] = Unit {0}
FrontFirst (x ∷ xs) = NoneBefore x.time xs

-- The number of tasks that pass a test.
unfoldable pub count : (ChronoTask → Bool) → List ChronoTask → ℕ
count p [] = 0
count p (x ∷ xs) = (if p x then 1 else 0) + count p xs

pub NoneBefore-mono : (a b : ℤ) (xs : List ChronoTask) → a ≤ℤ b → NoneBefore b xs → NoneBefore a xs
NoneBefore-mono a b [] h n = tt
NoneBefore-mono a b (x ∷ xs) h n = (omega (arith, n.0), NoneBefore-mono a b xs h n.1)

NoneBefore-insert :
    (a : ℤ) (t : ChronoTask) (xs : List ChronoTask)
    → a ≤ℤ t.time
    → NoneBefore a xs
    → NoneBefore a (insert_task t xs)
unfolding insert_task
NoneBefore-insert a t [] h n = (h, tt)
NoneBefore-insert a t (x ∷ xs) h n = elim (Bool-cases (later t x)) [
  | inl e ↦ rw e (n.0, NoneBefore-insert a t xs h n.1)
  | inr e ↦ rw e (h, n)
]

FrontFirst-insert :
    (t : ChronoTask) (xs : List ChronoTask) → FrontFirst xs → FrontFirst (insert_task t xs)
unfolding insert_task later
FrontFirst-insert t [] f = tt
FrontFirst-insert t (x ∷ xs) f = elim (Bool-cases (ltb_ℤ x.time t.time)) [
  | inl e ↦ rw e (NoneBefore-insert x.time t xs (ground arith) f)
  | inr e ↦ rw e (ground arith, NoneBefore-mono t.time x.time xs (ground arith) f)
]

pub FrontFirst-make_heap : (xs : List ChronoTask) → FrontFirst (make_heap xs)
unfolding make_heap
FrontFirst-make_heap [] = tt
FrontFirst-make_heap (x ∷ xs) = FrontFirst-insert x (make_heap xs) (FrontFirst-make_heap xs)

count-insert :
    (p : ChronoTask → Bool) (t : ChronoTask) (xs : List ChronoTask)
    → count p (insert_task t xs) ≡ count p (t ∷ xs)
unfolding insert_task count
count-insert p t [] = refl
count-insert p t (x ∷ xs) = elim (Bool-cases (later t x)) [
  | inl e ↦ rw e (omega (arith, count-insert p t xs))
  | inr e ↦ rw e refl
]

pub count-make_heap :
    (p : ChronoTask → Bool) (xs : List ChronoTask) → count p (make_heap xs) ≡ count p xs
unfolding make_heap count
count-make_heap p [] = refl
count-make_heap p (x ∷ xs) =
    count-insert p x (make_heap xs) ∙ ap (λ n. (if p x then 1 else 0) + n) (count-make_heap p xs)

pub count-append :
    (p : ChronoTask → Bool) (xs ys : List ChronoTask) → count p (xs ++ ys) ≡ count p xs + count p ys
unfolding count
count-append p [] ys = omega arith
count-append p (x ∷ xs) ys = omega (arith, count-append p xs ys)

pub pop_back-snoc : (xs : List ChronoTask) (t : ChronoTask) → pop_back (xs ++ t ∷ []) ≡ xs
unfolding pop_back
pop_back-snoc [] t = refl
pop_back-snoc (x ∷ []) t = refl
pop_back-snoc (x ∷ y ∷ xs) t = ap (λ r. x ∷ r) (pop_back-snoc (y ∷ xs) t)
