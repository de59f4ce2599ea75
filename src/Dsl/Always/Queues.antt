-- ===== src/Dsl/Always/Queues.antt =====
-- Queues by priority of which one or two hold tasks, for src/dsl/word/Always.hpp.
use nuclear.Base.{
  sym, ◌∙◌, ap, ℕ, zero, suc, ◌<◌, ◌≡◌, refl, List, [], ◌∷◌, ◌++◌, replicate, none, some, arith,
}
use nuclear.Threading.Buckets.{enqueue, dequeue}
use nuclear.Dsl.Always.{Kind}

-- One queue that is not empty, among `n`.
unfoldable pub only : ℕ → ℕ → List Kind → List (List Kind)
only zero i q = []
only (suc n) zero q = q ∷ replicate n []
only (suc n) (suc i) q = [] ∷ only n i q

-- Two queues, the second behind the first.
unfoldable pub both : ℕ → ℕ → ℕ → List Kind → List Kind → List (List Kind)
both zero i j q r = []
both (suc n) zero zero q r = q ∷ replicate n []
both (suc n) zero (suc j) q r = q ∷ only n j r
both (suc n) (suc i) zero q r = r ∷ replicate n []
both (suc n) (suc i) (suc j) q r = [] ∷ both n i j q r

abbrev no_tasks : List Kind
no_tasks = []

dequeue-replicate : (n : ℕ) → dequeue (replicate n no_tasks) ≡ none
unfolding dequeue
dequeue-replicate zero = refl
dequeue-replicate (suc n) = rw (dequeue-replicate n) refl

pub only_empty : (n i : ℕ) → only n i [] ≡ replicate n []
unfolding only
only_empty zero i = refl
only_empty (suc n) zero = refl
only_empty (suc n) (suc i) = ap (λ qs. [] ∷ qs) (only_empty n i)

pub both_empty : (n i j : ℕ) (r : List Kind) → i < j → both n i j [] r ≡ only n j r
unfolding both only
both_empty zero i j r h = refl
both_empty (suc n) zero zero r h = absurd (omega arith)
both_empty (suc n) zero (suc j) r h = refl
both_empty (suc n) (suc i) zero r h = absurd (omega arith)
both_empty (suc n) (suc i) (suc j) r h = ap (λ qs. [] ∷ qs) (both_empty n i j r (omega arith))

pub enqueue-only :
    (n i : ℕ) (a : Kind) (q : List Kind) → enqueue i a (only n i q) ≡ only n i (q ++ a ∷ [])
unfolding enqueue only
enqueue-only zero i a q = refl
enqueue-only (suc n) zero a q = refl
enqueue-only (suc n) (suc i) a q = ap (λ qs. [] ∷ qs) (enqueue-only n i a q)

pub dequeue-only :
    (n i : ℕ) (a : Kind) (q : List Kind) → i < n → dequeue (only n i (a ∷ q)) ≡ some (a, only n i q)
unfolding dequeue only
dequeue-only zero i a q h = absurd (omega arith)
dequeue-only (suc n) zero a q h = refl
dequeue-only (suc n) (suc i) a q h = rw (dequeue-only n i a q (omega arith)) refl

-- A task that enters the first of two queues.
pub enqueue-both :
    (n i j : ℕ) (a : Kind) (r : List Kind)
    → i < j
    → enqueue i a (only n j r) ≡ both n i j (a ∷ []) r
unfolding enqueue only both
enqueue-both zero i j a r h = refl
enqueue-both (suc n) zero zero a r h = absurd (omega arith)
enqueue-both (suc n) zero (suc j) a r h = refl
enqueue-both (suc n) (suc i) zero a r h = absurd (omega arith)
enqueue-both (suc n) (suc i) (suc j) a r h =
    ap (λ qs. [] ∷ qs) (enqueue-both n i j a r (omega arith))

-- A task that enters the second of two queues, behind a first that holds one.
pub enqueue-both_second :
    (n i j : ℕ) (a b : Kind)
    → i < j
    → enqueue j b (only n i (a ∷ [])) ≡ both n i j (a ∷ []) (b ∷ [])
unfolding enqueue only both
enqueue-both_second zero i j a b h = refl
enqueue-both_second (suc n) zero zero a b h = absurd (omega arith)
enqueue-both_second (suc n) zero (suc j) a b h =
    ap (λ qs. (a ∷ []) ∷ qs) (ap (enqueue j b) (sym (only_empty n j)) ∙ enqueue-only n j b [])
enqueue-both_second (suc n) (suc i) zero a b h = absurd (omega arith)
enqueue-both_second (suc n) (suc i) (suc j) a b h =
    ap (λ qs. [] ∷ qs) (enqueue-both_second n i j a b (omega arith))

pub dequeue-both :
    (n i j : ℕ) (a : Kind) (q r : List Kind)
    → i < j
    → i < n
    → dequeue (both n i j (a ∷ q) r) ≡ some (a, both n i j q r)
unfolding dequeue both
dequeue-both zero i j a q r h k = absurd (omega arith)
dequeue-both (suc n) zero zero a q r h k = absurd (omega arith)
dequeue-both (suc n) zero (suc j) a q r h k = refl
dequeue-both (suc n) (suc i) zero a q r h k = absurd (omega arith)
dequeue-both (suc n) (suc i) (suc j) a q r h k =
    rw (dequeue-both n i j a q r (omega arith) (omega arith)) refl
