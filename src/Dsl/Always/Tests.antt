-- ===== src/Dsl/Always/Tests.antt =====
-- Small concrete runs of reactions that always run.
use nuclear.Base.{◌≡◌, refl, Bool, true, false, ◌&&◌, [], ◌∷◌, ◌++◌, replicate, some, arith}
use nuclear.Base.Int.{ℤ, pos, ◌-ℤ◌, ◌+ℤ◌}
use nuclear.Threading.Priority.{priority_index, priority_buckets}
use nuclear.Threading.Buckets.{enqueue, dequeue}
use nuclear.Dsl.Always.{
  Always, bind, submit, submit_task, bucket, after_run, run_next, of_reaction, of_idle, run, Reach,
  here, next,
}
use nuclear.Dsl.Always.Queues.{only}
use nuclear.Dsl.Always.Runs.{OneEach, laid, Reach-OneEach}
use nuclear.Dsl.Always.Piles.{Runs, bind-piles_up}

-- The priority NORMAL, whose idle task is in the bucket of LOW.
abbrev normal : ℤ
normal = pos 500

abbrev thrown : Always
thrown = record {
  enabled = true;
  priority = normal;
  buckets = [] ∷ [] ∷ [] ∷ (of_idle ∷ []) ∷ [] ∷ [];
}

-- The first task throws, and only the idle task waits.
threw : Reach (bind normal true) thrown
unfolding bind submit_task submit bucket run_next after_run enqueue dequeue priority_index ◌-ℤ◌ ◌+ℤ◌
threw = next here (run true true (bind normal true) thrown refl)

Reach-OneEach_example :
    (o : OneEach normal thrown) × (o.waiting ≡ false
      → (throws accepts : Bool)
      → run_next throws accepts thrown
        ≡ some (record thrown { buckets = laid normal (thrown.enabled && accepts) }))
Reach-OneEach_example =
    Reach-OneEach normal true (unfold priority_index ◌-ℤ◌ ◌+ℤ◌ in omega arith) threw

-- The priority IDLE, after three rounds.
bind-piles_up_example :
    (s : Always) × Runs (bind (pos 0) true) s
    × (s.buckets
        ≡ only priority_buckets (priority_index (pos 0)) (replicate 4 of_reaction ++ of_idle ∷ []))
bind-piles_up_example = bind-piles_up (pos 0) 3 (unfold priority_index ◌-ℤ◌ ◌+ℤ◌ in refl)
