-- ===== src/Threading/Buckets.antt =====
-- The array of queues by priority that a group and a pool keep, each a first in, first out queue:
-- entering a bucket, and taking from the first that is not empty (src/threading/scheduler/Pool.cpp and
-- src/threading/scheduler/Group.cpp).
use nuclear.Base.{
  ℕ, zero, suc, ◌+◌, ◌<◌, ◌≡◌, refl, ap, List, [], ◌∷◌, ◌++◌, Option, none, some, length, replicate,
  arith, inl, inr, Option-cases,
}
use nuclear.Threading.Priority.{priority_buckets}

module _ {ℓ} {A : Type ℓ} where
  abbrev pub empty_buckets : List (List A)
  empty_buckets = replicate priority_buckets []

  -- `buckets[bucket]->enqueue(task)`.
  unfoldable pub enqueue : ℕ → A → List (List A) → List (List A)
  enqueue i a [] = []
  enqueue zero a (q ∷ qs) = (q ++ a ∷ []) ∷ qs
  enqueue (suc i) a (q ∷ qs) = q ∷ enqueue i a qs

  -- The loop over the buckets until `try_dequeue` succeeds.
  unfoldable pub dequeue : List (List A) → Option (A × List (List A))
  dequeue [] = none
  dequeue ([] ∷ qs) = elim (dequeue qs) [ none ↦ none | some (a, rest) ↦ some (a, [] ∷ rest) ]
  dequeue ((a ∷ q) ∷ qs) = some (a, q ∷ qs)

  -- A weight summed over a queue, and over all buckets.
  unfoldable pub sum_queue : (A → ℕ) → List A → ℕ
  sum_queue w [] = 0
  sum_queue w (a ∷ q) = w a + sum_queue w q

  unfoldable pub sum_buckets : (A → ℕ) → List (List A) → ℕ
  sum_buckets w [] = 0
  sum_buckets w (q ∷ qs) = sum_queue w q + sum_buckets w qs

  sum_queue-snoc :
      (w : A → ℕ) (q : List A) (a : A) → sum_queue w (q ++ a ∷ []) ≡ sum_queue w q + w a
  unfolding sum_queue
  sum_queue-snoc w [] a = omega arith
  sum_queue-snoc w (x ∷ q) a = omega (arith, sum_queue-snoc w q a)

  pub sum_buckets-enqueue :
      (w : A → ℕ) (i : ℕ) (a : A) (qs : List (List A))
      → i < length qs
      → sum_buckets w (enqueue i a qs) ≡ sum_buckets w qs + w a
  unfolding sum_buckets enqueue
  sum_buckets-enqueue w i a [] h = elim h [ ]
  sum_buckets-enqueue w zero a (q ∷ qs) h = omega (arith, sum_queue-snoc w q a)
  sum_buckets-enqueue w (suc i) a (q ∷ qs) h =
      omega (arith, sum_buckets-enqueue w i a qs (omega arith))

  pub length-enqueue : (i : ℕ) (a : A) (qs : List (List A)) → length (enqueue i a qs) ≡ length qs
  unfolding enqueue
  length-enqueue i a [] = refl
  length-enqueue zero a (q ∷ qs) = refl
  length-enqueue (suc i) a (q ∷ qs) = ap suc (length-enqueue i a qs)

  pub sum_buckets-dequeue :
      (w : A → ℕ) (qs rest : List (List A)) (a : A)
      → dequeue qs ≡ some (a, rest)
      → (sum_buckets w qs ≡ w a + sum_buckets w rest) × (length rest ≡ length qs)
  unfolding sum_buckets sum_queue dequeue
  sum_buckets-dequeue w [] rest a e = cc
  sum_buckets-dequeue w ([] ∷ qs) rest a e = elim (Option-cases (dequeue qs)) [
    | inl n ↦ cc
    | inr ((b, r), p) ↦ ground (arith, sum_buckets-dequeue w qs r b p)
  ]
  sum_buckets-dequeue w ((x ∷ q) ∷ qs) rest a e = ground arith

  pub sum_buckets_empty :
      (w : A → ℕ) (qs : List (List A)) → dequeue qs ≡ none → sum_buckets w qs ≡ 0
  unfolding sum_buckets sum_queue dequeue
  sum_buckets_empty w [] e = refl
  sum_buckets_empty w ([] ∷ qs) e = ground (arith, sum_buckets_empty w qs)
  sum_buckets_empty w ((x ∷ q) ∷ qs) e = cc
