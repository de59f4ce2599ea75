-- ===== src/Threading/Queue.antt =====
-- src/threading/scheduler/queue/Queue.hpp: the interface of the scheduler's queues, what a queue promises,
-- and what a client sees over any calls. The two implementations are the children.
pub mod Blocks
pub mod Mpsc
pub mod Mpmc
mod Tests
use nuclear.Base.{◌≡◌, refl, sym, ◌∙◌, ap, List, [], ◌∷◌, ◌++◌, Option, none, some, arith}

-- `enqueue` and `try_dequeue`, where `none` is a call that does not come back.
pub record Queue (A Q : Type 0) : Type 0 where
  pub empty_queue : Q
  pub enqueue : A → Q → Option Q
  pub try_dequeue : Q → Option (Option A × Q)

module _ {A : Type 0} where
  -- The abstract queue is a list: its first item, if any, and the rest.
  abbrev pub first : List A → Option A
  first [] = none
  first (a ∷ rest) = some a

  abbrev pub rest : List A → List A
  rest [] = []
  rest (a ∷ tail) = tail

-- What an implementation promises: calls on a valid queue come back, and act on the contents as
-- first in, first out.
pub record Fifo {A Q : Type 0} (ops : Queue A Q) : Type 1 where
  pub IsValid : Q → Type 0
  pub contents : Q → List A
  pub valid_empty : IsValid ops.empty_queue
  pub contents_empty : contents ops.empty_queue ≡ []
  pub enqueue_lem :
      (a : A) (q : Q)
      → IsValid q
      → (r : Q) × (ops.enqueue a q ≡ some r) × IsValid r × (contents r ≡ contents q ++ a ∷ [])
  pub try_dequeue_lem :
      (q : Q)
      → IsValid q
      → (r : Q) × (ops.try_dequeue q ≡ some (first (contents q), r))
        × IsValid r
        × (contents r ≡ rest (contents q))

pub data Call (A : Type 0) : Type 0 where
  put : A → Call A
  take : Call A

module _ {A Q : Type 0} (ops : Queue A Q) where
  abbrev after_put : (Q → Option (List (Option A))) → Option Q → Option (List (Option A))
  after_put next none = none
  after_put next (some q) = next q

  abbrev add_result : Option A → Option (List (Option A)) → Option (List (Option A))
  add_result a none = none
  add_result a (some results) = some (a ∷ results)

  abbrev after_take :
      (Q → Option (List (Option A))) → Option (Option A × Q) → Option (List (Option A))
  after_take next none = none
  after_take next (some (a, q)) = add_result a (next q)

  -- The results of the `try_dequeue` calls in a sequence of calls.
  unfoldable pub run : List (Call A) → Q → Option (List (Option A))
  run [] q = some []
  run (put a ∷ calls) q = after_put (run calls) (ops.enqueue a q)
  run (take ∷ calls) q = after_take (run calls) (ops.try_dequeue q)

-- The same calls on a list.
unfoldable pub run_list : {A : Type 0} → List (Call A) → List A → List (Option A)
run_list [] items = []
run_list (put a ∷ calls) items = run_list calls (items ++ a ∷ [])
run_list (take ∷ calls) items = first items ∷ run_list calls (rest items)

module _ {A Q : Type 0} (ops : Queue A Q) (laws : Fifo ops) where
  run_refines :
      (calls : List (Call A)) (q : Q)
      → laws.IsValid q
      → run ops calls q ≡ some (run_list calls (laws.contents q))
  unfolding run run_list
  run_refines [] q v = refl
  run_refines (put a ∷ calls) q v =
      let (r, e, w, c) = laws.enqueue_lem a q v in rw (e, ← c) (run_refines calls r w)
  run_refines (take ∷ calls) q v =
      let (r, e, w, c) = laws.try_dequeue_lem q v in rw (e, run_refines calls r w, c) refl

  -- Any calls on a queue that keeps its promises come back, with the results of the same calls on a
  -- list.
  pub run-empty_refines :
      (calls : List (Call A)) → run ops calls ops.empty_queue ≡ some (run_list calls [])
  run-empty_refines calls =
      run_refines calls ops.empty_queue laws.valid_empty
      ∙ ap (λ c. some (run_list calls c)) laws.contents_empty
