-- ===== src/Threading/Group/Steps.antt =====
-- The steps of a group (src/threading/scheduler/Group.cpp), in any order and by any threads: the calls that
-- run without interruption, and the calls of `try_submit` that are interrupted between its sections.
use nuclear.Base.{ℕ, ◌+◌, ◌<◌, ◌≡◌, refl, Bool, true, arith, Option}
use nuclear.Base.Int.{pos, pos_part, neg_part, ltb_ℤ}
use nuclear.Threading.Priority.{Rank}
use nuclear.Threading.Buckets.{empty_buckets, sum_buckets, sum_queue}
use nuclear.Threading.Group.{
  Group, new_group, finish, try_acquire_running_lock, back_off, park_publish, park_reconcile,
  try_submit, lock, lock_handle, unlock,
}
use nuclear.Threading.Group.Slots.{at_slot}
use nuclear.Threading.Group.Accounts.{Accounts, locked, counted, count_locked}
use nuclear.Threading.Group.Operations.{
  finish-Accounts, try_acquire_running_lock-Accounts, back_off-Accounts, park_publish-Accounts,
  park_reconcile-Accounts, try_submit-Accounts, lock-Accounts, lock_handle-Accounts,
  unlock-Accounts,
}

-- The calls that run without interruption.
pub data Whole (g : Group) : Group → Type 0 where
  submits :
      (task : Rank) (pool : Option ℕ) (clear_idle : Bool)
      → Whole g (try_submit task pool clear_idle g).1
  acquires : Whole g (try_acquire_running_lock g).1
  finishes : 0 < g.running → Whole g (finish g)
  locks : (rank : Rank) → Whole g (lock rank g).1
  tries : (handle : ℕ) → Whole g (lock_handle handle g).1
  unlocks : (handle : ℕ) → Whole g (unlock handle g)

-- And the sections of the calls that are interrupted. A slot that is reconciled has been given out.
pub data Step (g : Group) : Group → Type 0 where
  whole : {h : Group} → Whole g h → Step g h
  publishes :
      (task : Rank) (pool : Option ℕ) (clear_idle : Bool)
      → Step g (park_publish task pool clear_idle g).1
  reconciles : (slot : ℕ) → slot < g.next_slot → Step g (park_reconcile slot g)
  backs_off : ltb_ℤ (pos 0) g.tokens ≡ true → Step g (back_off g)

-- The states after any steps, and after uninterrupted calls alone.
pub data Reach (concurrency : ℕ) : Group → Type 0 where
  initial : Reach concurrency (new_group concurrency)
  later : {g h : Group} → Reach concurrency g → Step g h → Reach concurrency h

pub data WholeReach (concurrency : ℕ) : Group → Type 0 where
  untouched : WholeReach concurrency (new_group concurrency)
  next : {g h : Group} → WholeReach concurrency g → Whole g h → WholeReach concurrency h

empty_sum : (s : ℕ) → sum_buckets (at_slot s) empty_buckets ≡ 0
unfolding sum_buckets sum_queue
empty_sum s = refl

pub new_group-Accounts : (concurrency : ℕ) → Accounts concurrency 0 (new_group concurrency)
unfolding count_locked sum_buckets sum_queue
new_group-Accounts concurrency = record {
  slots = record {
    size = refl;
    once = λ s. omega (arith, empty_sum s);
    fresh = λ s h. empty_sum s;
    kept = λ s h e. absurd (omega arith);
  };
  level = omega arith;
}

pub Whole-Accounts : {c : ℕ} {g h : Group} → Whole g h → Accounts c 0 g → Accounts c 0 h
Whole-Accounts (submits task pool clear_idle) a = try_submit-Accounts task pool clear_idle _ a
Whole-Accounts acquires a = try_acquire_running_lock-Accounts _ a
Whole-Accounts (finishes r) a = finish-Accounts _ r a
Whole-Accounts (locks rank) a = lock-Accounts rank _ a
Whole-Accounts (tries handle) a = lock_handle-Accounts handle _ a
Whole-Accounts (unlocks handle) a = unlock-Accounts handle _ a

Step-Accounts : {c : ℕ} {g h : Group} → Step g h → Accounts c 0 g → Accounts c 0 h
Step-Accounts (whole w) a = Whole-Accounts w a
Step-Accounts (publishes task pool clear_idle) a = park_publish-Accounts task pool clear_idle _ a
Step-Accounts (reconciles slot lt) a = park_reconcile-Accounts slot _ lt a
Step-Accounts (backs_off e) a = back_off-Accounts _ a

Reach-Accounts : {concurrency : ℕ} {g : Group} → Reach concurrency g → Accounts concurrency 0 g
Reach-Accounts initial = new_group-Accounts _
Reach-Accounts (later r s) = Step-Accounts s (Reach-Accounts r)

-- In every state that any interleaving of the sections of a group's calls reaches, where only slots
-- that were given out are reconciled and only running tasks finish, the free tokens, the running
-- tasks, the locked handles and the waiters that are parked and counted add up to the concurrency,
-- where negative tokens count on the other side.
pub Reach-balance :
    {concurrency : ℕ} {g : Group}
    → Reach concurrency g
    → pos_part g.tokens + g.running + locked g + counted g ≡ concurrency + neg_part g.tokens
Reach-balance r = omega (arith, (Reach-Accounts r).level)

pub WholeReach-Accounts :
    {concurrency : ℕ} {g : Group} → WholeReach concurrency g → Accounts concurrency 0 g
WholeReach-Accounts untouched = new_group-Accounts _
WholeReach-Accounts (next r w) = Whole-Accounts w (WholeReach-Accounts r)
