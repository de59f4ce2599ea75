-- ===== src/Threading/Group.antt =====
-- src/threading/scheduler/Group.hpp and src/threading/scheduler/Group.cpp: the tokens of a group, its
-- fast path (running locks and parked waiters) and its slow path (the queue of lock handles). The
-- functions below are the atomic sections of the code. A slot of a waiter is a number into `slots`, a
-- handle is named by its number, and `running` counts the RunningLock objects that are alive.
pub mod Handles
pub mod Slots
pub mod Accounts
pub mod Operations
pub mod Steps
pub mod Room
pub mod Phantom
pub mod Pending
use nuclear.Base.{
  ℕ, suc, ◌+◌, ◌-◌, Bool, true, false, not, ◌&&◌, ltb, ◌==◌, if◌then◌else◌, List, [], ◌∷◌, ◌++◌,
  map, Option, none, some,
}
use nuclear.Base.Int.{ℤ, pos, negsuc, ltb_ℤ, ◌+ℤ◌, ◌-ℤ◌}
use nuclear.Threading.Priority.{Rank, priority_index}
use nuclear.Threading.Buckets.{empty_buckets, enqueue, dequeue}
use Handles.{
  LockHandle, offered, mark_notified, insert_handle, clear_notified, take_handle, try_lock,
  erase_handle,
}

-- A parked task, `WaitEntry`.
pub record WaitEntry : Type 0 where
  pub task : Rank
  pub pool : Option ℕ
  pub clear_idle : Bool
  pub slot : ℕ

-- What a group does to the pools and to the holders of its lock handles, in order.
pub data Event : Type 0 where
  submitted : Rank → Option ℕ → Bool → Bool → Event
  registered : ℕ → Event
  unregistered : ℕ → Event
  notified : ℕ → Event

pub record Group : Type 0 where
  pub concurrency : ℕ
  pub tokens : ℤ
  pub slow_pending : ℕ
  pub wait_buckets : List (List WaitEntry)
  pub slots : ℕ → Bool
  pub next_slot : ℕ
  pub queue : List LockHandle
  pub next_handle : ℕ
  pub running : ℕ
  pub events : List Event

-- `Group(descriptor)`.
abbrev pub new_group : ℕ → Group
new_group concurrency = record {
  concurrency = concurrency;
  tokens = pos concurrency;
  slow_pending = 0;
  wait_buckets = empty_buckets;
  slots = λ s. false;
  next_slot = 0;
  queue = [];
  next_handle = 0;
  running = 0;
  events = [];
}

abbrev pub add_tokens : ℕ → Group → Group
add_tokens n g = record g { tokens = g.tokens +ℤ pos n }

abbrev pub sub_tokens : ℕ → Group → Group
sub_tokens n g = record g { tokens = g.tokens -ℤ pos n }

abbrev pub emit : List Event → Group → Group
emit es g = record g { events = g.events ++ es }

abbrev pub write_slot : ℕ → Bool → (ℕ → Bool) → ℕ → Bool
write_slot s b slots n = if n == s then b else slots n

-- `make_running_lock`.
abbrev pub make_running_lock : Group → Group
make_running_lock g = record g { running = suc g.running }

abbrev of_pool : (ℕ → Event) → Option ℕ → List Event
of_pool event none = []
of_pool event (some p) = event p ∷ []

-- `drain_one_to_pool`, once a waiter has been dequeued.
abbrev pub start_waiter : WaitEntry → List (List WaitEntry) → Group → Group
start_waiter e rest g =
    emit (submitted e.task e.pool e.clear_idle true ∷ of_pool unregistered e.pool)
      (make_running_lock record g { wait_buckets = rest; slots = write_slot e.slot true g.slots })

-- `drain_one_to_pool` and its callers: a waiter that was not counted owes its decrement.
unfoldable pub drain_one_to_pool : Group → (Bool × Bool) × Group
drain_one_to_pool g = elim (dequeue g.wait_buckets) [
  | none ↦ ((false, false), g)
  | some (e, rest) ↦ ((true, not (g.slots e.slot)), start_waiter e rest g)
]

unfoldable pub drain_and_pay : Group → Group
drain_and_pay g =
    let ((drained, uncounted), after) = drain_one_to_pool g in
    if drained && uncounted then sub_tokens 1 after else after

-- `notify_slow_path`.
unfoldable pub notify_slow_path : Group → Group
notify_slow_path g =
    emit (map notified (offered g.tokens g.queue))
      record g { queue = mark_notified g.tokens g.queue }

-- `release_token`.
unfoldable pub release_token : Group → Group
release_token g =
    if ltb_ℤ g.tokens (pos 0)
    then drain_and_pay (add_tokens 1 g)
    else if ltb 0 g.slow_pending
    then notify_slow_path (add_tokens 1 g)
    else drain_and_pay (add_tokens 1 g)

-- The destructor of a RunningLock.
unfoldable pub finish : Group → Group
finish g = release_token record g { running = g.running - 1 }

-- `try_acquire_running_lock`: the exchange succeeds at the value that was read.
unfoldable pub try_acquire_running_lock : Group → Bool × Group
try_acquire_running_lock g =
    if ltb 0 g.slow_pending
    then (false, g)
    else if ltb_ℤ (pos 0) g.tokens
    then (true, make_running_lock (sub_tokens 1 g))
    else (false, g)

-- The branch of `try_acquire_running_lock` and `try_submit` in which a slow-path waiter slipped in
-- after the exchange.
unfoldable pub back_off : Group → Group
back_off g = release_token (sub_tokens 1 g)

-- `park_publish`, which returns the new slot.
unfoldable pub park_publish : Rank → Option ℕ → Bool → Group → ℕ × Group
park_publish task pool clear_idle g = (
  g.next_slot,
  emit (of_pool registered pool) record g {
    slots = write_slot g.next_slot false g.slots;
    next_slot = suc g.next_slot;
    wait_buckets =
        enqueue (priority_index task.priority)
          record { task = task; pool = pool; clear_idle = clear_idle; slot = g.next_slot }
          g.wait_buckets;
  },
)

-- `park_reconcile`, which reads `slow_pending` in the state it runs in.
unfoldable pub park_reconcile : ℕ → Group → Group
park_reconcile slot g =
    if ltb_ℤ (pos 0) g.tokens && ltb 0 g.slow_pending
    then release_token (sub_tokens 1 g)
    else if g.slots slot
    then release_token (sub_tokens 1 g)
    else if ltb_ℤ (pos 0) g.tokens
    then drain_and_pay record (sub_tokens 1 g) { slots = write_slot slot true g.slots }
    else record (sub_tokens 1 g) { slots = write_slot slot true g.slots }

-- The end of `try_submit`, where nothing else runs between the two.
abbrev pub park : Rank → Option ℕ → Bool → Group → Group
park task pool clear_idle g =
    let (slot, after) = park_publish task pool clear_idle g in park_reconcile slot after

-- `try_submit`, run without interruption.
unfoldable pub try_submit : Rank → Option ℕ → Bool → Group → Bool × Group
try_submit task pool clear_idle g =
    if not (ltb 0 g.slow_pending) && ltb_ℤ (pos 0) g.tokens
    then (
      true,
      emit (submitted task pool clear_idle false ∷ []) (make_running_lock (sub_tokens 1 g)),
    )
    else (false, park task pool clear_idle g)

-- `Group::lock`, which returns the new handle.
unfoldable pub lock : Rank → Group → ℕ × Group
lock rank g = (
  g.next_handle,
  record g {
    slow_pending = suc g.slow_pending;
    next_handle = suc g.next_handle;
    queue = clear_notified g.tokens (
        insert_handle
          record { handle = g.next_handle; rank = rank; locked = false; notified = false } g.queue);
  },
)

-- `GroupLock::lock`.
unfoldable pub lock_handle : ℕ → Group → Bool × Group
lock_handle h g = elim (take_handle h g.queue) [
  | none ↦ (false, g)
  | some entry ↦ if entry.locked then (true, g) else elim (try_lock h g.tokens g.queue) [
    | none ↦ (false, g)
    | some queue ↦ (true, record (sub_tokens 1 g) { queue = queue })
  ]
]

-- The destructor of a GroupLock: the section under the mutex, then the drains.
abbrev pub remove_handle : ℕ → LockHandle → Group → Group
remove_handle h entry g =
    let freed : Group = if entry.locked then add_tokens 1 g else g in
    let queue : List LockHandle = erase_handle h g.queue in
    emit (map notified (offered freed.tokens queue))
      record freed { queue = mark_notified freed.tokens queue; slow_pending = g.slow_pending - 1 }

unfoldable pub unlock : ℕ → Group → Group
unlock h g = elim (take_handle h g.queue) [
  | none ↦ g
  | some entry ↦
      let after : Group = remove_handle h entry g in
      if entry.locked && ltb_ℤ g.tokens (pos 0)
      then drain_and_pay after
      else if entry.locked && not (ltb 0 after.slow_pending)
      then drain_and_pay after
      else after
]
