-- ===== src/Threading/Queue/Mpmc/Empty.antt =====
-- src/threading/scheduler/queue/TaskQueue.hpp: `empty`.
use nuclear.Base.{
  ◌≡◌, refl, List, [], ◌∷◌, ◌++◌, ltb, arith, Bool, true, false, Bool-cases, inl, inr,
}
use nuclear.Threading.Queue.Blocks.{
  Block, Chain, published, remaining, remaining_all, contents, AllFull, IsOpen, drop-get_elem?,
  drop_end, Valid,
}
use nuclear.Threading.Queue.Mpmc.{empty_from, empty}

module _ {A : Type 0} where
  unfoldable pub is_nil : List A → Bool
  is_nil [] = true
  is_nil (x ∷ xs) = false

  empty_from-remaining :
      (front : List (Block A)) (tail : Block A)
      → AllFull front
      → IsOpen tail
      → empty_from front tail ≡ is_nil (remaining_all front ++ remaining tail)
  unfolding empty_from remaining remaining_all is_nil
  empty_from-remaining [] tail full writable = elim (Bool-cases (ltb tail.read (published tail))) [
    | inl e ↦
        let (a, get, split) =
          drop-get_elem? tail.read tail.slots
            (ground (arith, writable.committed, writable.within)) in
        rw (e, split) refl
    | inr e ↦
        rw (e, drop_end tail.read tail.slots (ground (arith, writable.committed, writable.within)))
          refl
  ]
  empty_from-remaining (b ∷ bs) tail full writable = elim (Bool-cases (ltb b.read (published b))) [
    | inl e ↦
        let (a, get, split) =
          drop-get_elem? b.read b.slots (ground (arith, full.0.filled, full.0.written)) in
        rw (e, split, empty_from, remaining_all, remaining) refl
    | inr e ↦
        rw
          (
            e,
            drop_end b.read b.slots (ground (arith, full.0.filled, full.0.written)),
            empty_from,
            remaining_all,
            remaining,
          )
          (empty_from-remaining bs tail full.1 writable)
  ]

  -- On a queue between calls, `empty` says whether there is nothing left to read.
  pub empty-contents : (q : Chain A) → Valid q → empty q ≡ is_nil (contents q)
  unfolding empty contents
  empty-contents q v = empty_from-remaining q.front q.tail v.full v.writable
