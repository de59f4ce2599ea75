-- ===== src/Threading/Group/Pending.antt =====
-- The count of the slow-path waiters of a group (src/threading/scheduler/Group.cpp) against its queue.
use nuclear.Base.{
  ℕ, suc, ◌-◌, ◌≡◌, refl, Bool, true, false, if◌then◌else◌, List, [], ◌∷◌, Option, some, length,
  arith, Bool-cases, Option-cases, inl, inr,
}
use nuclear.Base.Int.{ℤ}
use nuclear.Threading.Priority.{Rank}
use nuclear.Threading.Buckets.{dequeue}
use nuclear.Threading.Group.{
  Group, add_tokens, sub_tokens, write_slot, drain_one_to_pool, drain_and_pay, notify_slow_path,
  release_token, finish, try_acquire_running_lock, back_off, park_publish, park_reconcile,
  try_submit, lock, lock_handle, remove_handle, unlock,
}
use nuclear.Threading.Group.Handles.{
  LockHandle, charge, mark_notified, clear_notified, insert_handle, take_handle, erase_handle,
  try_lock,
}
use nuclear.Threading.Group.Steps.{
  Whole, submits, acquires, finishes, locks, tries, unlocks, Step, whole, publishes, reconciles,
  backs_off, Reach, initial, later,
}

length-mark_notified : (free : ℤ) (q : List LockHandle) → length (mark_notified free q) ≡ length q
unfolding mark_notified
length-mark_notified free [] = refl
length-mark_notified free (h ∷ q) = omega (arith, length-mark_notified (charge free h) q)

length-clear_notified : (free : ℤ) (q : List LockHandle) → length (clear_notified free q) ≡ length q
unfolding clear_notified
length-clear_notified free [] = refl
length-clear_notified free (h ∷ q) = omega (arith, length-clear_notified (charge free h) q)

length-insert_handle :
    (new : LockHandle) (q : List LockHandle) → length (insert_handle new q) ≡ suc (length q)
unfolding insert_handle
length-insert_handle new [] = refl
length-insert_handle new (h ∷ q) = ground (arith, length-insert_handle new q)

length-erase_handle :
    (n : ℕ) (q : List LockHandle) (h : LockHandle)
    → take_handle n q ≡ some h
    → length q ≡ suc (length (erase_handle n q))
unfolding take_handle erase_handle
length-erase_handle n [] h e = cc
length-erase_handle n (x ∷ q) h e = ground (arith, length-erase_handle n q h)

length-try_lock :
    (n : ℕ) (free : ℤ) (q locking : List LockHandle)
    → try_lock n free q ≡ some locking
    → length locking ≡ length q
unfolding try_lock
length-try_lock n free [] locking e = cc
length-try_lock n free (x ∷ q) locking e = elim (Option-cases (try_lock n (charge free x) q)) [
  | inl p ↦ ground arith
  | inr (rest, p) ↦ ground (arith, length-try_lock n (charge free x) q rest)
]

abbrev Pending : Group → Type 0
Pending g = g.slow_pending ≡ length g.queue

drain_and_pay-Pending : (g : Group) → Pending g → Pending (drain_and_pay g)
unfolding drain_and_pay drain_one_to_pool
drain_and_pay-Pending g a = elim (Option-cases (dequeue g.wait_buckets)) [
  | inl p ↦ rw (p, drain_and_pay, drain_one_to_pool) a
  | inr ((e, rest), p) ↦ elim (Bool-cases (g.slots e.slot)) [
    | inl c ↦ rw (p, c, drain_and_pay, drain_one_to_pool) a
    | inr c ↦ rw (p, c, drain_and_pay, drain_one_to_pool) a
  ]
]

notify_slow_path-Pending : (g : Group) → Pending g → Pending (notify_slow_path g)
unfolding notify_slow_path
notify_slow_path-Pending g a = omega (arith, a, length-mark_notified g.tokens g.queue)

release_token-Pending : (g : Group) → Pending g → Pending (release_token g)
unfolding release_token
release_token-Pending g a =
    ground
      (arith, drain_and_pay-Pending (add_tokens 1 g) a, notify_slow_path-Pending (add_tokens 1 g) a)

park_reconcile-Pending : (slot : ℕ) (g : Group) → Pending g → Pending (park_reconcile slot g)
unfolding park_reconcile
park_reconcile-Pending slot g a = ground (
  arith,
  a,
  release_token-Pending (sub_tokens 1 g) a,
  drain_and_pay-Pending (record (sub_tokens 1 g) { slots = write_slot slot true g.slots }) a,
)

park_publish-Pending :
    (task : Rank) (pool : Option ℕ) (clear_idle : Bool) (g : Group)
    → Pending g
    → Pending (park_publish task pool clear_idle g).1
unfolding park_publish
park_publish-Pending task pool clear_idle g a = a

try_submit-Pending :
    (task : Rank) (pool : Option ℕ) (clear_idle : Bool) (g : Group)
    → Pending g
    → Pending (try_submit task pool clear_idle g).1
unfolding try_submit
try_submit-Pending task pool clear_idle g a = ground (
  arith,
  a,
  park_reconcile-Pending (park_publish task pool clear_idle g).0
      (park_publish task pool clear_idle g).1 (park_publish-Pending task pool clear_idle g a),
)

lock-Pending : (rank : Rank) (g : Group) → Pending g → Pending (lock rank g).1
unfolding lock
lock-Pending rank g a = omega (
  arith,
  a,
  length-clear_notified g.tokens (insert_handle new g.queue),
  length-insert_handle new g.queue,
)
  where
    new : LockHandle
    new = record { handle = g.next_handle; rank = rank; locked = false; notified = false }

lock_handle-Pending : (n : ℕ) (g : Group) → Pending g → Pending (lock_handle n g).1
unfolding lock_handle
lock_handle-Pending n g a = elim (Option-cases (take_handle n g.queue)) [
  | inl p ↦ rw (p, lock_handle) a
  | inr (entry, p) ↦ elim (Bool-cases entry.locked) [
    | inl c ↦ rw (p, c, lock_handle) a
    | inr c ↦ elim (Option-cases (try_lock n g.tokens g.queue)) [
      | inl q ↦ rw (p, c, q, lock_handle) a
      | inr (queue, q) ↦
          rw (p, c, q, lock_handle) (omega (arith, a, length-try_lock n g.tokens g.queue queue q))
    ]
  ]
]

remove_handle-Pending :
    (n : ℕ) (entry : LockHandle) (g : Group)
    → take_handle n g.queue ≡ some entry
    → Pending g
    → Pending (remove_handle n entry g)
remove_handle-Pending n entry g p a = omega (
  arith,
  a,
  length-erase_handle n g.queue entry p,
  length-mark_notified (if entry.locked then add_tokens 1 g else g).tokens (erase_handle n g.queue),
)

unlock-Pending : (n : ℕ) (g : Group) → Pending g → Pending (unlock n g)
unfolding unlock
unlock-Pending n g a = elim (Option-cases (take_handle n g.queue)) [
  | inl p ↦ rw (p, unlock) a
  | inr (entry, p) ↦
      rw (p, unlock)
        (ground (
          arith,
          remove_handle-Pending n entry g p a,
          drain_and_pay-Pending (remove_handle n entry g) (remove_handle-Pending n entry g p a),
        ))
]

acquire-Pending : (g : Group) → Pending g → Pending (try_acquire_running_lock g).1
unfolding try_acquire_running_lock
acquire-Pending g a = ground (arith, a)

finish-Pending : (g : Group) → Pending g → Pending (finish g)
unfolding finish
finish-Pending g a = release_token-Pending (record g { running = g.running - 1 }) a

back_off-Pending : (g : Group) → Pending g → Pending (back_off g)
unfolding back_off
back_off-Pending g a = release_token-Pending (sub_tokens 1 g) a

Whole-Pending : {g h : Group} → Whole g h → Pending g → Pending h
Whole-Pending (submits task pool clear_idle) a = try_submit-Pending task pool clear_idle _ a
Whole-Pending acquires a = acquire-Pending _ a
Whole-Pending (finishes r) a = finish-Pending _ a
Whole-Pending (locks rank) a = lock-Pending rank _ a
Whole-Pending (tries handle) a = lock_handle-Pending handle _ a
Whole-Pending (unlocks handle) a = unlock-Pending handle _ a

Step-Pending : {g h : Group} → Step g h → Pending g → Pending h
Step-Pending (whole w) a = Whole-Pending w a
Step-Pending (publishes task pool clear_idle) a = park_publish-Pending task pool clear_idle _ a
Step-Pending (reconciles slot lt) a = park_reconcile-Pending slot _ a
Step-Pending (backs_off e) a = back_off-Pending _ a

-- In every state that any interleaving of the sections of a group's calls reaches, the count of
-- pending slow-path waiters is the number of lock handles in the queue.
pub Reach-Pending :
    {concurrency : ℕ} {g : Group} → Reach concurrency g → g.slow_pending ≡ length g.queue
Reach-Pending initial = refl
Reach-Pending (later r s) = Step-Pending s (Reach-Pending r)
