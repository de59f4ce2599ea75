-- ===== src/Threading/Pool.antt =====
-- src/threading/scheduler/Pool.cpp and src/threading/scheduler/CountingLock.cpp: the queues, counters and
-- idle locks of a pool. A function is an atomic section of the code, run by the thread it names, and
-- `submit` is three. The counters of the scheduler that a pool reaches through its reference are its field `scheduler`. A
-- CountingLock that is held is its `locked` flag. Whether the lock of a task can be taken is decided by
-- the groups (Group.antt), so `can_lock` is a parameter of `get_task`.
pub mod Work
pub mod Counts
pub mod Turns
mod Tests
use nuclear.Base.{
  ℕ, zero, suc, ◌+◌, ◌-◌, ◌^◌, Bool, true, false, not, ◌&&◌, ◌||◌, ltb, ◌==◌, if◌then◌else◌, List,
  [], ◌∷◌, ◌++◌, Option, none, some, length, keep_if,
}
use nuclear.Base.Int.{ℤ, pos, ◌+ℤ◌, ◌-ℤ◌}
use nuclear.Threading.Priority.{Rank, priority_index, eq_ℤ}
use nuclear.Threading.Buckets.{empty_buckets, enqueue, dequeue}

-- `Pool::Task`: a reaction task with the lock that it needs, if any.
pub record Task : Type 0 where
  pub task : Rank
  pub lock : Option ℕ

pub data StopType : Type 0 where
  stop_normal stop_final stop_force : StopType

pub record ThreadPoolDescriptor : Type 0 where
  pub concurrency : ℕ
  pub counts_for_idle : Bool
  pub persistent : Bool
  pub is_main_thread : Bool
  pub is_default : Bool

-- `notify_one` and `notify_all` on the condition variable of the pool.
pub data Wake : Type 0 where
  wake_one wake_all : Wake

-- The counters of the scheduler.
pub record Shared : Type 0 where
  pub active_pools : ℤ
  pub global_idle_count : ℕ
  pub global_idle_tasks : List ℕ
  pub default_pool_concurrency : ℕ

pub record Pool : Type 0 where
  pub descriptor : ThreadPoolDescriptor
  pub scheduler : Shared
  pub single_consumer : Bool
  pub consumer_thread_id : Option ℕ
  pub live : Bool
  pub running : Bool
  pub accept : Bool
  pub discard_queues_requested : Bool
  pub buckets : List (List Task)
  pub pending_tasks : ℕ
  pub external_waiters : ℕ
  pub pending_idle : Bool
  pub idle_tasks : List ℕ
  pub idle_task_count : ℕ
  pub active : ℤ
  pub pool_idle : Option Bool
  pub thread_idle : List (ℕ × Bool)
  pub threads : ℕ
  pub wakes : List Wake

-- What one turn of the loop of `get_task` ends in.
pub data Turn : Type 0 where
  dispatch : Task → Turn
  dispatch_idle : List ℕ → Turn
  wait : Turn
  again : Turn
  shut_down : Turn

-- `CountingLock(counter)` with the default step and target: whether it is locked, and the counter.
unfoldable pub counting_lock : ℤ → Bool × ℤ
counting_lock counter = (eq_ℤ (counter -ℤ pos 1) (pos 0), counter -ℤ pos 1)

-- `fetch_sub` on a std::size_t, which wraps below zero.
abbrev pub fetch_sub : ℕ → ℕ → ℕ
fetch_sub n k = if ltb n k then n + 2 ^ 64 - k else n - k

abbrev pub wake : Wake → Pool → Pool
wake w p = record p { wakes = p.wakes ++ w ∷ [] }

abbrev pub set_active_pools : ℤ → Pool → Pool
set_active_pools n p = record p { scheduler = record (p.scheduler) { active_pools = n } }

-- `pool_idle = nullptr`, which gives the count of a held lock back.
unfoldable pub clear_pool_idle : Pool → Pool
clear_pool_idle p = elim p.pool_idle [
  | none ↦ p
  | some locked ↦ record (set_active_pools (p.scheduler.active_pools +ℤ pos 1) p) {
    pool_idle = none;
  }
]

-- `pool_idle = std::make_unique<CountingLock>(scheduler.active_pools)`.
unfoldable pub take_pool_idle : Pool → Pool
take_pool_idle p =
    let (locked, n) = counting_lock p.scheduler.active_pools in
    record (set_active_pools n p) { pool_idle = some locked }

-- `Pool(scheduler, descriptor)`.
unfoldable pub new_pool : ThreadPoolDescriptor → Shared → Pool
new_pool descriptor scheduler =
    let p : Pool = record {
      descriptor = descriptor;
      scheduler = scheduler;
      single_consumer = descriptor.concurrency == 1 && not descriptor.is_default;
      consumer_thread_id = none;
      live = true;
      running = true;
      accept = true;
      discard_queues_requested = false;
      buckets = empty_buckets;
      pending_tasks = 0;
      external_waiters = 0;
      pending_idle = false;
      idle_tasks = [];
      idle_task_count = 0;
      active = pos 0;
      pool_idle = none;
      thread_idle = [];
      threads = 0;
      wakes = [];
    } in
    if descriptor.counts_for_idle
    then take_pool_idle (set_active_pools (scheduler.active_pools +ℤ pos 1) p)
    else p

-- `start`, up to the threads' own work: the main thread runs the loop itself.
unfoldable pub start : Pool → Pool
start p =
    let n : ℕ =
      if p.descriptor.is_default
      then p.scheduler.default_pool_concurrency
      else p.descriptor.concurrency in
    record p {
      active = if p.descriptor.counts_for_idle then pos n else pos 0;
      threads = if p.descriptor.is_main_thread then p.threads else p.threads + n;
    }

unfoldable pub notify : Bool → Pool → Pool
notify clear_idle p =
    let p : Pool = record p { live = true } in
    wake wake_one (if clear_idle then clear_pool_idle p else p)

-- The three sections of `submit`, which begins without the mutex: the task is counted, it enters its
-- bucket, and under the mutex the pool is woken.
unfoldable pub submit_count : Pool → Pool
submit_count p = record p { pending_tasks = suc p.pending_tasks }

unfoldable pub submit_enter : Task → Pool → Pool
submit_enter t p = record p { buckets = enqueue (priority_index t.task.priority) t p.buckets }

unfoldable pub submit_wake : Bool → Pool → Pool
submit_wake clear_idle p =
    wake wake_one record (if clear_idle then clear_pool_idle p else p) { live = true }

-- A task that is counted and entered at once.
unfoldable pub put : Task → Pool → Pool
put t p = submit_enter t (submit_count p)

-- `submit` without interruption.
unfoldable pub submit : Task → Bool → Bool → Pool → Pool
submit t clear_idle force p =
    if not force && not p.accept then p else submit_wake clear_idle (put t p)

unfoldable pub idle_relevant : Pool → Bool
idle_relevant p = ltb 0 p.idle_task_count || ltb 0 p.scheduler.global_idle_count

unfoldable pub register_external_waiter : Pool → Pool
register_external_waiter p =
    let q : Pool = record p { external_waiters = suc p.external_waiters } in
    if not (idle_relevant q)
    then q
    else if q.pending_idle
    then q
    else wake wake_one record q { pending_idle = true }

unfoldable pub unregister_external_waiter : Pool → Pool
unregister_external_waiter p =
    let q : Pool = record p { external_waiters = fetch_sub p.external_waiters 1 } in
    if p.external_waiters == 1 then wake wake_all q else q

unfoldable pub add_idle_task : ℕ → Pool → Pool
add_idle_task reaction p =
    let q : Pool = record p {
      idle_tasks = p.idle_tasks ++ reaction ∷ [];
      idle_task_count = suc p.idle_task_count;
    } in
    if length q.idle_tasks == 1 then wake wake_one q else q

unfoldable pub remove_idle_task : ℕ → Pool → Pool
remove_idle_task id p =
    let kept = keep_if (λ r. not (r == id)) p.idle_tasks in
    record p {
      idle_tasks = kept;
      idle_task_count = fetch_sub p.idle_task_count (length p.idle_tasks - length kept);
    }

unfoldable pub is_idle : Pool → Bool
is_idle p = elim p.pool_idle [ none ↦ false | some locked ↦ true ]
