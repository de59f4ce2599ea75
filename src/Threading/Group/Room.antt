-- ===== src/Threading/Group/Room.antt =====
-- How many tasks a group runs at once (src/threading/scheduler/Group.cpp).
use nuclear.Base.{
  ℕ, ◌+◌, ◌-◌, ◌<◌, ◌≤◌, ◌≡◌, refl, Bool, true, false, ==_iff, Option, arith, Bool-cases,
  Option-cases, inl, inr,
}
use nuclear.Base.Int.{pos, pos_part, neg_part, ltb_ℤ, +ℤ_parts, -ℤ_parts}
use nuclear.Threading.Priority.{Rank, priority_index, priority_index_mono}
use nuclear.Threading.Buckets.{dequeue}
use nuclear.Threading.Group.{
  Group, add_tokens, sub_tokens, write_slot, drain_one_to_pool, drain_and_pay, notify_slow_path,
  release_token, finish, try_acquire_running_lock, park_publish, park_reconcile, park, try_submit,
  lock, lock_handle, remove_handle, unlock,
}
use nuclear.Threading.Group.Handles.{LockHandle, take_handle, try_lock}
use nuclear.Threading.Group.Slots.{
  sum_buckets-claim, Slots, counted-dequeue, counted-enqueue, Slots-claim,
}
use nuclear.Threading.Group.Accounts.{Accounts, locked, counted, try_lock_lem}
use nuclear.Threading.Group.Operations.{park_publish-Accounts, published}
use nuclear.Threading.Group.Steps.{
  Whole, submits, acquires, finishes, locks, tries, unlocks, WholeReach, untouched, next,
  WholeReach-Accounts,
}

-- The counted waiters and the tokens leave room for `k` more.
abbrev pub Room : ℕ → Group → Type 0
Room k g = neg_part g.tokens + k ≤ counted g + pos_part g.tokens

abbrev pub SlotsOf : Group → Type 0
SlotsOf g = Slots g.slots g.next_slot g.wait_buckets

drain_and_pay-Room : (g : Group) → SlotsOf g → Room 1 g → Room 0 (drain_and_pay g)
unfolding drain_and_pay drain_one_to_pool
drain_and_pay-Room g a h = elim (Option-cases (dequeue g.wait_buckets)) [
  | inl p ↦ rw (p, drain_and_pay, drain_one_to_pool) (omega (arith, h))
  | inr ((e, rest), p) ↦ elim (Bool-cases (g.slots e.slot)) [
    | inl c ↦
        rw (p, c, drain_and_pay, drain_one_to_pool)
          (ground (arith, h, counted-dequeue g.slots g.next_slot g.wait_buckets rest e p a))
    | inr c ↦
        rw (p, c, drain_and_pay, drain_one_to_pool)
          (ground (
            arith,
            h,
            counted-dequeue g.slots g.next_slot g.wait_buckets rest e p a,
            -ℤ_parts g.tokens (pos 1),
          ))
  ]
]

add_tokens-Room : (g : Group) → Room 0 g → Room 1 (add_tokens 1 g)
add_tokens-Room g h = omega (arith, h, +ℤ_parts g.tokens (pos 1))

sub_tokens-Room : (g : Group) → ltb_ℤ (pos 0) g.tokens ≡ true → Room 0 (sub_tokens 1 g)
sub_tokens-Room g e = ground (arith, -ℤ_parts g.tokens (pos 1))

notify_slow_path-Room : (g : Group) → Room 1 g → Room 0 (notify_slow_path g)
unfolding notify_slow_path
notify_slow_path-Room g h = omega (arith, h)

release_token-Room : (g : Group) → SlotsOf g → Room 0 g → Room 0 (release_token g)
unfolding release_token
release_token-Room g a h = ground (
  arith,
  drain_and_pay-Room (add_tokens 1 g) a (add_tokens-Room g h),
  notify_slow_path-Room (add_tokens 1 g) (add_tokens-Room g h),
)

finish-Room : (g : Group) → SlotsOf g → Room 0 g → Room 0 (finish g)
unfolding finish
finish-Room g a h = release_token-Room (record g { running = g.running - 1 }) a h

try_acquire_running_lock-Room : (g : Group) → Room 0 g → Room 0 (try_acquire_running_lock g).1
unfolding try_acquire_running_lock
try_acquire_running_lock-Room g h = ground (arith, h, -ℤ_parts g.tokens (pos 1))

claim-Room :
    (slot k : ℕ) (g : Group)
    → slot < g.next_slot
    → g.slots slot ≡ false
    → SlotsOf g
    → Room k g
    → Room k (record (sub_tokens 1 g) { slots = write_slot slot true g.slots })
claim-Room slot k g lt e a h = omega (
  arith,
  h,
  a.kept slot lt e,
  sum_buckets-claim slot g.slots g.wait_buckets e,
  -ℤ_parts g.tokens (pos 1),
)

-- A waiter that reconciles before any drain has reached it.
park_reconcile-Room :
    (slot : ℕ) (g : Group)
    → slot < g.next_slot
    → g.slots slot ≡ false
    → SlotsOf g
    → Room 0 g
    → Room 0 (park_reconcile slot g)
unfolding park_reconcile
park_reconcile-Room slot g lt e a h = elim (Bool-cases (ltb_ℤ (pos 0) g.tokens)) [
  | inl t ↦ ground (
    arith,
    release_token-Room (sub_tokens 1 g) a (sub_tokens-Room g t),
    drain_and_pay-Room (record (sub_tokens 1 g) { slots = write_slot slot true g.slots })
        (Slots-claim slot g.next_slot g.slots g.wait_buckets a)
        (claim-Room slot 1 g lt e a (ground arith)),
  )
  | inr t ↦ ground (arith, claim-Room slot 0 g lt e a h)
]

publish-Room :
    (task : Rank) (pool : Option ℕ) (clear_idle : Bool) (g : Group)
    → SlotsOf g
    → Room 0 g
    → Room 0 (park_publish task pool clear_idle g).1
unfolding park_publish
publish-Room task pool clear_idle g a h = omega (
  arith,
  h,
  counted-enqueue g.slots g.next_slot (priority_index task.priority) g.wait_buckets
      (record { task = task; pool = pool; clear_idle = clear_idle; slot = g.next_slot })
      (priority_index_mono task.priority task.priority (omega arith)).1 refl a,
)

published_clear :
    (task : Rank) (pool : Option ℕ) (clear_idle : Bool) (g : Group)
    → (park_publish task pool clear_idle g).1.slots (park_publish task pool clear_idle g).0 ≡ false
unfolding park_publish
published_clear task pool clear_idle g = ground (arith, ==_iff g.next_slot g.next_slot)

park-Room :
    {c : ℕ} (task : Rank) (pool : Option ℕ) (clear_idle : Bool) (g : Group)
    → Accounts c 0 g
    → Room 0 g
    → Room 0 (park task pool clear_idle g)
park-Room task pool clear_idle g a h =
    park_reconcile-Room (park_publish task pool clear_idle g).0
      (park_publish task pool clear_idle g).1 (published task pool clear_idle g)
      (published_clear task pool clear_idle g)
      (park_publish-Accounts task pool clear_idle g a).slots
      (publish-Room task pool clear_idle g a.slots h)

try_submit-Room :
    {c : ℕ} (task : Rank) (pool : Option ℕ) (clear_idle : Bool) (g : Group)
    → Accounts c 0 g
    → Room 0 g
    → Room 0 (try_submit task pool clear_idle g).1
unfolding try_submit
try_submit-Room task pool clear_idle g a h =
    ground (arith, h, -ℤ_parts g.tokens (pos 1), park-Room task pool clear_idle g a h)

lock-Room : (rank : Rank) (g : Group) → Room 0 g → Room 0 (lock rank g).1
unfolding lock
lock-Room rank g h = omega (arith, h)

lock_handle-Room : (n : ℕ) (g : Group) → Room 0 g → Room 0 (lock_handle n g).1
unfolding lock_handle
lock_handle-Room n g h = elim (Option-cases (take_handle n g.queue)) [
  | inl p ↦ rw (p, lock_handle) h
  | inr (entry, p) ↦ elim (Bool-cases entry.locked) [
    | inl c ↦ rw (p, c, lock_handle) h
    | inr c ↦ elim (Option-cases (try_lock n g.tokens g.queue)) [
      | inl q ↦ rw (p, c, q, lock_handle) h
      | inr (queue, q) ↦
          rw (p, c, q, lock_handle)
            (omega (
              arith,
              (try_lock_lem n g.tokens g.queue queue entry p c q).1,
              -ℤ_parts g.tokens (pos 1),
            ))
    ]
  ]
]

remove_handle-Room :
    (n : ℕ) (entry : LockHandle) (g : Group)
    → entry.locked ≡ true
    → Room 0 g
    → Room 1 (remove_handle n entry g)
remove_handle-Room n entry g c h = rw c (omega (arith, h, +ℤ_parts g.tokens (pos 1)))

remove_free-Room :
    (n : ℕ) (entry : LockHandle) (g : Group) → Room 0 g → Room 0 (remove_handle n entry g)
remove_free-Room n entry g h = elim (Bool-cases entry.locked) [
  | inl c ↦ rw c (omega (arith, h, +ℤ_parts g.tokens (pos 1)))
  | inr c ↦ rw c (omega (arith, h))
]

remove_handle-Slots :
    (n : ℕ) (entry : LockHandle) (g : Group) → SlotsOf g → SlotsOf (remove_handle n entry g)
remove_handle-Slots n entry g a = elim (Bool-cases entry.locked) [ inl c ↦ rw c a | inr c ↦ rw c a ]

unlock-Room : (n : ℕ) (g : Group) → SlotsOf g → Room 0 g → Room 0 (unlock n g)
unfolding unlock
unlock-Room n g a h = elim (Option-cases (take_handle n g.queue)) [
  | inl p ↦ rw (p, unlock) h
  | inr (entry, p) ↦ elim (Bool-cases entry.locked) [
    | inl c ↦
        rw (p, unlock)
          (ground (
            arith,
            drain_and_pay-Room (remove_handle n entry g) (remove_handle-Slots n entry g a)
                (remove_handle-Room n entry g c h),
            remove_free-Room n entry g h,
          ))
    | inr c ↦ rw (p, unlock) (ground (arith, remove_free-Room n entry g h))
  ]
]

Whole-Room : {c : ℕ} {g h : Group} → Whole g h → Accounts c 0 g → Room 0 g → Room 0 h
Whole-Room (submits task pool clear_idle) a r = try_submit-Room task pool clear_idle _ a r
Whole-Room acquires a r = try_acquire_running_lock-Room _ r
Whole-Room (finishes p) a r = finish-Room _ a.slots r
Whole-Room (locks rank) a r = lock-Room rank _ r
Whole-Room (tries handle) a r = lock_handle-Room handle _ r
Whole-Room (unlocks handle) a r = unlock-Room handle _ a.slots r

WholeReach-Room : {concurrency : ℕ} {g : Group} → WholeReach concurrency g → Room 0 g
WholeReach-Room untouched = omega arith
WholeReach-Room (next r w) = Whole-Room w (WholeReach-Accounts r) (WholeReach-Room r)

-- When every call on a group runs without interruption, in particular between publishing and
-- reconciling a waiter, the running tasks and the locked handles together are never more than the
-- group's concurrency.
pub WholeReach-bound :
    {concurrency : ℕ} {g : Group} → WholeReach concurrency g → g.running + locked g ≤ concurrency
WholeReach-bound r = omega (arith, (WholeReach-Accounts r).level, WholeReach-Room r)
