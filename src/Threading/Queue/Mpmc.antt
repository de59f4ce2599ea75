-- ===== src/Threading/Queue/Mpmc.antt =====
-- src/threading/scheduler/queue/TaskQueue.hpp: the queue for many consumers.
pub mod Settled
pub mod Refines
pub mod Empty
use nuclear.Base.{
  ℕ, zero, suc, ◌+◌, ◌<◌, ◌≤◌, ◌≡◌, refl, sym, ap, ◌∙◌, List, [], ◌∷◌, ◌++◌, Option, none, some,
  ltb, ◌==◌, ◌&&◌, length, drop, get_elem?, arith, Bool, true, false, Bool-cases, inl, inr, ◌⊎◌,
  append-nil, if◌then◌else◌, append_assoc, subst, length-append,
}
use mathlib.Core.Option.{some-injective}
use nuclear.Threading.Queue.{Queue, first, rest, Fifo, Call, run, run_list, run-empty_refines}
use nuclear.Threading.Queue.Blocks.{
  block_size, new_block, overflow, Block, Chain, empty_chain, enqueue_loop, enqueue_fuel,
  link_next_block, commit, published, head_of, retire_block, set_head, remaining, remaining_all,
  contents, IsFull, AllFull, IsOpen, Drained, drop-get_elem?, drop_end, Valid, Valid-empty,
  enqueue_loop_lem,
}

module _ {A : Type 0} where
  -- `try_reclaim_block`, of the head.
  unfoldable pub try_reclaim_block : Chain A → Chain A
  try_reclaim_block q = elim q.front [
    | [] ↦ q
    | b ∷ bs ↦ if b.consumed == block_size then retire_block b (record q { front = bs }) else q
  ]

  abbrev pub finish : Block A → Block A
  finish b = record b { read = suc b.read; consumed = suc b.consumed }

  -- The slot whose index was won: the item is moved out, the slot is counted as consumed, and a block
  -- that is consumed to the end is reclaimed.
  abbrev pub read_slot : Option A → Chain A → Option (Option A × Chain A)
  read_slot none q = none
  read_slot (some a) q =
      let b = head_of q.front q.tail in
      some (
        some a,
        if suc b.consumed == block_size
            then try_reclaim_block (set_head q.front (finish b) q)
            else set_head q.front (finish b) q,
      )

  -- `enqueue`; two rounds are enough, since a new block has room.
  abbrev pub enqueue : A → Chain A → Option (Chain A)
  enqueue = enqueue_loop enqueue_fuel

  -- The loop of `try_dequeue`; a yield is a further round.
  unfoldable pub try_dequeue_loop : ℕ → Chain A → Option (Option A × Chain A)
  try_dequeue_loop zero q = none
  try_dequeue_loop (suc fuel) q =
      elim (ltb (head_of q.front q.tail).read (published (head_of q.front q.tail))) [
        | true ↦
            read_slot (get_elem? (head_of q.front q.tail).slots (head_of q.front q.tail).read) q
        | false ↦
            elim (ltb (head_of q.front q.tail).consumed (published (head_of q.front q.tail))) [
              | true ↦ try_dequeue_loop fuel q
              | false ↦ elim q.front [
                | [] ↦ elim (published q.tail == 0 && ltb 0 q.tail.write) [
                  | true ↦ try_dequeue_loop fuel q
                  | false ↦ some (none, q)
                ]
                | b ∷ bs ↦ try_dequeue_loop fuel (retire_block b (record q { front = bs }))
              ]
            ]
      ]

  unfoldable pub try_dequeue : Chain A → Option (Option A × Chain A)
  try_dequeue q = try_dequeue_loop (suc (length q.front)) q

  -- The loop of `empty`.
  unfoldable pub empty_from : List (Block A) → Block A → Bool
  empty_from [] tail = if ltb tail.read (published tail) then false else true
  empty_from (b ∷ bs) tail =
      let behind = empty_from bs tail in if ltb b.read (published b) then false else behind

  unfoldable pub empty : Chain A → Bool
  empty q = empty_from q.front q.tail
