-- ===== src/Threading/Queue/Tests.antt =====
-- Runs of both queues.
use nuclear.Base.{ℕ, ◌≡◌, refl, arith, [], ◌∷◌, some}
use nuclear.Threading.Queue.{put, take, run, run_list}
use nuclear.Threading.Queue.Blocks.{Chain, commit, new_block, empty_chain, Valid}
use nuclear.Threading.Queue.Mpsc.{mpsc_queue, mpsc_queue_refines}
use nuclear.Threading.Queue.Mpmc.Refines.{task_queue, task_queue_refines}

mpsc_queue_refines_example :
    run {A = ℕ} mpsc_queue (put 1 ∷ take ∷ put 2 ∷ take ∷ take ∷ []) empty_chain
    ≡ some (run_list {A = ℕ} (put 1 ∷ take ∷ put 2 ∷ take ∷ take ∷ []) [])
mpsc_queue_refines_example = mpsc_queue_refines (put 1 ∷ take ∷ put 2 ∷ take ∷ take ∷ [])

task_queue_refines_example :
    run {A = ℕ} task_queue (take ∷ put 5 ∷ put 6 ∷ take ∷ []) empty_chain
    ≡ some (run_list {A = ℕ} (take ∷ put 5 ∷ put 6 ∷ take ∷ []) [])
task_queue_refines_example = task_queue_refines (take ∷ put 5 ∷ put 6 ∷ take ∷ [])

abbrev one_left : Chain ℕ
one_left = record { front = []; tail = commit 7 new_block; graveyard = [] }

one_left-Valid : Valid one_left
one_left-Valid = record {
  full = tt;
  writable = record { committed = refl; within = omega arith; read_bound = omega arith };
  drained = tt;
}
