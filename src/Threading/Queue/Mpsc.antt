-- ===== src/Threading/Queue/Mpsc.antt =====
-- src/threading/scheduler/queue/MPSCQueue.hpp: the queue of a pool with one consumer.
use nuclear.Base.{
  ℕ, zero, suc, ◌<◌, ◌≡◌, refl, List, [], ◌∷◌, Option, none, some, ltb, length, drop, get_elem?,
  arith, true, false, Bool-cases, inl, inr,
}
use nuclear.Threading.Queue.{Queue, first, rest, Fifo, Call, run, run_list, run-empty_refines}
use nuclear.Threading.Queue.Blocks.{
  block_size, Block, Chain, empty_chain, enqueue_loop, enqueue_fuel, published, head_of,
  retire_block, set_head, remaining, remaining_all, contents, drop-get_elem?, drop_end, Valid,
  Valid-empty, enqueue_loop_lem,
}

module _ {A : Type 0} where
  abbrev read_slot : Option A → Chain A → Option (Option A × Chain A)
  read_slot none q = none
  read_slot (some a) q =
      let b = head_of q.front q.tail in
      some (some a, set_head q.front (record b { read = suc b.read }) q)

  -- `enqueue`; two rounds are enough, since a new block has room.
  abbrev pub enqueue : A → Chain A → Option (Chain A)
  enqueue = enqueue_loop enqueue_fuel

  -- The loop of `try_dequeue`: read at the head, or move the head on and retire the old one.
  unfoldable pub try_dequeue_loop : ℕ → Chain A → Option (Option A × Chain A)
  try_dequeue_loop zero q = none
  try_dequeue_loop (suc fuel) q =
      elim (ltb (head_of q.front q.tail).read (published (head_of q.front q.tail))) [
        | true ↦
            read_slot (get_elem? (head_of q.front q.tail).slots (head_of q.front q.tail).read) q
        | false ↦ elim q.front [
          | [] ↦ elim (ltb block_size q.tail.write) [
            | true ↦ try_dequeue_loop fuel q
            | false ↦ some (none, q)
          ]
          | b ∷ bs ↦ try_dequeue_loop fuel (retire_block b (record q { front = bs }))
        ]
      ]

  unfoldable pub try_dequeue : Chain A → Option (Option A × Chain A)
  try_dequeue q = try_dequeue_loop (suc (length q.front)) q

  abbrev Dequeues : Option (Option A × Chain A) → List A → Type 0
  Dequeues o items =
      (r : Chain A) × (o ≡ some (first items, r)) × Valid r × (contents r ≡ rest items)

  try_dequeue_loop_lem :
      (fuel : ℕ) (front : List (Block A)) (tail : Block A) (graveyard : List (Block A))
      → length front < fuel
      → Valid (record { front = front; tail = tail; graveyard = graveyard })
      → Dequeues
          (try_dequeue_loop fuel (record { front = front; tail = tail; graveyard = graveyard }))
          (contents (record { front = front; tail = tail; graveyard = graveyard }))
  unfolding try_dequeue_loop contents remaining_all remaining
  try_dequeue_loop_lem zero front tail graveyard h v = absurd (omega arith)
  try_dequeue_loop_lem (suc fuel) [] tail graveyard h v =
      elim (Bool-cases (ltb tail.read (published tail))) [
        | inl e ↦
            let (a, get, split) =
              drop-get_elem? tail.read tail.slots
                (ground (arith, v.writable.committed, v.writable.within)) in
            (
              record {
                front = [];
                tail = record tail { read = suc tail.read };
                graveyard = graveyard;
              },
              rw (e, get, split, try_dequeue_loop, contents, remaining_all, remaining) refl,
              record {
                full = tt;
                writable = record {
                  committed = v.writable.committed;
                  within = v.writable.within;
                  read_bound = ground (arith, v.writable.within);
                };
                drained = v.drained;
              },
              rw (split, contents, remaining_all, remaining) refl,
            )
        | inr e ↦
            let over : ltb block_size tail.write ≡ false = ground (arith, v.writable.within) in
            let none_left : drop tail.read tail.slots ≡ [] =
              drop_end tail.read tail.slots
                (ground (arith, v.writable.committed, v.writable.within)) in
            (
              record { front = []; tail = tail; graveyard = graveyard },
              rw (e, over, none_left, try_dequeue_loop, contents, remaining_all, remaining) refl,
              v,
              rw (none_left, contents, remaining_all, remaining) refl,
            )
      ]
  try_dequeue_loop_lem (suc fuel) (b ∷ bs) tail graveyard h v =
      elim (Bool-cases (ltb b.read (published b))) [
        | inl e ↦
            let (a, get, split) =
              drop-get_elem? b.read b.slots (ground (arith, v.full.0.filled, v.full.0.written)) in
            (
              record {
                front = record b { read = suc b.read } ∷ bs;
                tail = tail;
                graveyard = graveyard;
              },
              rw (e, get, split, try_dequeue_loop, contents, remaining_all, remaining) refl,
              record {
                full = (
                  record {
                    filled = v.full.0.filled;
                    written = v.full.0.written;
                    read_bound = ground (arith, v.full.0.written);
                  },
                  v.full.1,
                );
                writable = v.writable;
                drained = v.drained;
              },
              rw (split, contents, remaining_all, remaining) refl,
            )
        | inr e ↦
            let none_left : drop b.read b.slots ≡ [] =
              drop_end b.read b.slots (ground (arith, v.full.0.filled, v.full.0.written)) in
            rw (e, none_left, try_dequeue_loop, contents, remaining_all, remaining)
              (try_dequeue_loop_lem fuel bs tail (b ∷ graveyard) (omega arith) (record {
                full = v.full.1;
                writable = v.writable;
                drained = (none_left, v.drained);
              }))
      ]

  -- `MPSCQueue`.
  abbrev pub mpsc_queue : Queue A (Chain A)
  mpsc_queue = record { empty_queue = empty_chain; enqueue = enqueue; try_dequeue = try_dequeue }

  pub mpsc_queue-Fifo : Fifo mpsc_queue
  unfolding try_dequeue contents remaining_all remaining
  mpsc_queue-Fifo = record {
    IsValid = Valid;
    contents = contents;
    valid_empty = Valid-empty;
    contents_empty = refl;
    enqueue_lem = enqueue_loop_lem;
    try_dequeue_lem = λ q v.
        try_dequeue_loop_lem (suc (length q.front)) q.front q.tail q.graveyard (omega arith) v;
  }

  -- The queue for one consumer refines the list: any calls that run one after the other on a new
  -- queue come back, with the results that first in, first out prescribes.
  pub mpsc_queue_refines :
      (calls : List (Call A)) → run mpsc_queue calls empty_chain ≡ some (run_list calls [])
  mpsc_queue_refines calls = run-empty_refines mpsc_queue mpsc_queue-Fifo calls
