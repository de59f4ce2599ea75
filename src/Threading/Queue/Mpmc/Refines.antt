-- ===== src/Threading/Queue/Mpmc/Refines.antt =====
-- src/threading/scheduler/queue/TaskQueue.hpp: `try_dequeue`, and the queue as an instance of the
-- interface.
use nuclear.Base.{
  ℕ, zero, suc, ◌<◌, ◌≡◌, refl, ap, List, [], ◌∷◌, Option, some, ltb, ◌==◌, ◌&&◌, length, drop,
  arith, false, Bool-cases, inl, inr, if◌then◌else◌,
}
use nuclear.Threading.Queue.{Queue, first, rest, Fifo, Call, run, run_list, run-empty_refines}
use nuclear.Threading.Queue.Blocks.{
  block_size, Block, Chain, empty_chain, published, remaining, remaining_all, contents,
  drop-get_elem?, drop_end, Valid-empty,
}
use nuclear.Threading.Queue.Mpmc.{enqueue, finish, try_dequeue_loop, try_dequeue}
use nuclear.Threading.Queue.Mpmc.Settled.{Settled, enqueue_settled, settle}

quiet_lem : (w : ℕ) → ((if ltb w block_size then w else block_size) == 0 && ltb 0 w) ≡ false
quiet_lem w = ground arith

module _ {A : Type 0} where
  abbrev Dequeues : Option (Option A × Chain A) → List A → Type 0
  Dequeues o items =
      (r : Chain A) × (o ≡ some (first items, r)) × Settled r × (contents r ≡ rest items)

  try_dequeue_loop_lem :
      (fuel : ℕ) (front : List (Block A)) (tail : Block A) (graveyard : List (Block A))
      → length front < fuel
      → Settled (record { front = front; tail = tail; graveyard = graveyard })
      → Dequeues
          (try_dequeue_loop fuel (record { front = front; tail = tail; graveyard = graveyard }))
          (contents (record { front = front; tail = tail; graveyard = graveyard }))
  unfolding try_dequeue_loop contents remaining_all remaining
  try_dequeue_loop_lem zero front tail graveyard h s = absurd (omega arith)
  try_dequeue_loop_lem (suc fuel) [] tail graveyard h s =
      elim (Bool-cases (ltb tail.read (published tail))) [
        | inl e ↦
            let (a, get, split) =
              drop-get_elem? tail.read tail.slots
                (ground (arith, s.valid.writable.committed, s.valid.writable.within)) in
            let (r, same, settled, held) =
              settle (suc tail.consumed == block_size)
                (record { front = []; tail = finish tail; graveyard = graveyard })
                (record {
                  valid = record {
                    full = tt;
                    writable = record {
                      committed = s.valid.writable.committed;
                      within = s.valid.writable.within;
                      read_bound = ground (arith, s.valid.writable.within);
                    };
                    drained = s.valid.drained;
                  };
                  front_finished = tt;
                  tail_finished = ap suc s.tail_finished;
                }) in
            (
              r,
              rw (e, get, split, try_dequeue_loop, contents, remaining_all, remaining)
                  (ap (λ x. some (some a, x)) same),
              settled,
              rw (split, contents, remaining_all, remaining) held,
            )
        | inr e ↦
            let idle : ltb tail.consumed (published tail) ≡ false =
              ground (arith, s.tail_finished) in
            let quiet : (published tail == 0 && ltb 0 tail.write) ≡ false = quiet_lem tail.write in
            let none_left : drop tail.read tail.slots ≡ [] =
              drop_end tail.read tail.slots
                (ground (arith, s.valid.writable.committed, s.valid.writable.within)) in
            (
              record { front = []; tail = tail; graveyard = graveyard },
              rw (e, idle, quiet, none_left, try_dequeue_loop, contents, remaining_all, remaining)
                  refl,
              s,
              rw (none_left, contents, remaining_all, remaining) refl,
            )
      ]
  try_dequeue_loop_lem (suc fuel) (b ∷ bs) tail graveyard h s =
      elim (Bool-cases (ltb b.read (published b))) [
        | inl e ↦
            let (a, get, split) =
              drop-get_elem? b.read b.slots
                (ground (arith, s.valid.full.0.filled, s.valid.full.0.written)) in
            let (r, same, settled, held) =
              settle (suc b.consumed == block_size)
                (record { front = finish b ∷ bs; tail = tail; graveyard = graveyard })
                (record {
                  valid = record {
                    full = (
                      record {
                        filled = s.valid.full.0.filled;
                        written = s.valid.full.0.written;
                        read_bound = ground (arith, s.valid.full.0.written);
                      },
                      s.valid.full.1,
                    );
                    writable = s.valid.writable;
                    drained = s.valid.drained;
                  };
                  front_finished = (ap suc s.front_finished.0, s.front_finished.1);
                  tail_finished = s.tail_finished;
                }) in
            (
              r,
              rw (e, get, split, try_dequeue_loop, contents, remaining_all, remaining)
                  (ap (λ x. some (some a, x)) same),
              settled,
              rw (split, contents, remaining_all, remaining) held,
            )
        | inr e ↦
            let idle : ltb b.consumed (published b) ≡ false = ground (arith, s.front_finished.0) in
            let none_left : drop b.read b.slots ≡ [] =
              drop_end b.read b.slots
                (ground (arith, s.valid.full.0.filled, s.valid.full.0.written)) in
            rw (e, idle, none_left, try_dequeue_loop, contents, remaining_all, remaining)
              (try_dequeue_loop_lem fuel bs tail (b ∷ graveyard) (omega arith) (record {
                valid = record {
                  full = s.valid.full.1;
                  writable = s.valid.writable;
                  drained = (none_left, s.valid.drained);
                };
                front_finished = s.front_finished.1;
                tail_finished = s.tail_finished;
              }))
      ]

  -- `TaskQueue`.
  abbrev pub task_queue : Queue A (Chain A)
  task_queue = record { empty_queue = empty_chain; enqueue = enqueue; try_dequeue = try_dequeue }

  pub task_queue-Fifo : Fifo task_queue
  unfolding try_dequeue contents remaining_all remaining
  task_queue-Fifo = record {
    IsValid = Settled;
    contents = contents;
    valid_empty = record { valid = Valid-empty; front_finished = tt; tail_finished = refl };
    contents_empty = refl;
    enqueue_lem = enqueue_settled;
    try_dequeue_lem = λ q s.
        try_dequeue_loop_lem (suc (length q.front)) q.front q.tail q.graveyard (omega arith) s;
  }

  -- The queue for many consumers refines the list: any calls that run one after the other on a new
  -- queue come back, with the results that first in, first out prescribes.
  pub task_queue_refines :
      (calls : List (Call A)) → run task_queue calls empty_chain ≡ some (run_list calls [])
  task_queue_refines calls = run-empty_refines task_queue task_queue-Fifo calls
