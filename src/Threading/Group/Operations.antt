-- ===== src/Threading/Group/Operations.antt =====
-- The operations of a group (src/threading/scheduler/Group.cpp), against the account of its tokens.
use nuclear.Base.{
  ℕ, ◌-◌, ◌<◌, ◌≡◌, refl, Bool, true, false, List, [], ◌∷◌, Option, some, arith, Bool-cases,
  Option-cases, inl, inr,
}
use nuclear.Base.Int.{pos, ◌+ℤ◌, +ℤ_parts, -ℤ_parts}
use nuclear.Threading.Priority.{Rank, priority_index, priority_index_mono}
use nuclear.Threading.Group.{
  Group, WaitEntry, Event, submitted, emit, park, sub_tokens, write_slot, make_running_lock, finish,
  try_acquire_running_lock, back_off, park_publish, park_reconcile, try_submit, lock, lock_handle,
  remove_handle, unlock,
}
use nuclear.Threading.Group.Handles.{LockHandle, take_handle, try_lock, erase_handle, insert_handle}
use nuclear.Threading.Group.Slots.{sum_buckets-claim, Slots-enqueue, counted-enqueue, Slots-claim}
use nuclear.Threading.Group.Accounts.{
  Accounts, locked-mark_notified, locked-clear_notified, locked-insert_handle, locked-erase_handle,
  try_lock_lem, drain_and_pay-Accounts, sub_tokens-Accounts, release_token-Accounts,
}

pub finish-Accounts : {c : ℕ} (g : Group) → 0 < g.running → Accounts c 0 g → Accounts c 0 (finish g)
unfolding finish
finish-Accounts g h a =
    release_token-Accounts (record g { running = g.running - 1 })
      (record { slots = a.slots; level = omega (arith, a.level) })

running-Accounts : {c : ℕ} (g : Group) → Accounts c 1 g → Accounts c 0 (make_running_lock g)
running-Accounts g a = record { slots = a.slots; level = omega (arith, a.level) }

pub try_acquire_running_lock-Accounts :
    {c : ℕ} (g : Group) → Accounts c 0 g → Accounts c 0 (try_acquire_running_lock g).1
unfolding try_acquire_running_lock
try_acquire_running_lock-Accounts g a =
    ground (arith, a, running-Accounts (sub_tokens 1 g) (sub_tokens-Accounts 0 g a))

pub back_off-Accounts : {c : ℕ} (g : Group) → Accounts c 0 g → Accounts c 0 (back_off g)
unfolding back_off
back_off-Accounts g a = release_token-Accounts (sub_tokens 1 g) (sub_tokens-Accounts 0 g a)

pub park_publish-Accounts :
    {c : ℕ} (task : Rank) (pool : Option ℕ) (clear_idle : Bool) (g : Group)
    → Accounts c 0 g
    → Accounts c 0 (park_publish task pool clear_idle g).1
unfolding park_publish
park_publish-Accounts task pool clear_idle g a = record {
  slots =
      Slots-enqueue g.slots g.next_slot (priority_index task.priority) g.wait_buckets entry bound
        refl a.slots;
  level = omega (
    arith,
    a.level,
    counted-enqueue g.slots g.next_slot (priority_index task.priority) g.wait_buckets entry bound
        refl a.slots,
  );
}
  where
    entry : WaitEntry
    entry = record { task = task; pool = pool; clear_idle = clear_idle; slot = g.next_slot }

    bound : priority_index task.priority < 5
    bound = (priority_index_mono task.priority task.priority (omega arith)).1

-- The slot that `park_publish` returns is given out.
pub published :
    (task : Rank) (pool : Option ℕ) (clear_idle : Bool) (g : Group)
    → (park_publish task pool clear_idle g).0 < (park_publish task pool clear_idle g).1.next_slot
unfolding park_publish
published task pool clear_idle g = omega arith

pub claim-Accounts :
    {c : ℕ} (slot : ℕ) (g : Group)
    → slot < g.next_slot
    → g.slots slot ≡ false
    → Accounts c 0 g
    → Accounts c 0 (record (sub_tokens 1 g) { slots = write_slot slot true g.slots })
claim-Accounts slot g lt e a = record {
  slots = Slots-claim slot g.next_slot g.slots g.wait_buckets a.slots;
  level = omega (
    arith,
    a.level,
    a.slots.kept slot lt e,
    sum_buckets-claim slot g.slots g.wait_buckets e,
    -ℤ_parts g.tokens (pos 1),
  );
}

pub park_reconcile-Accounts :
    {c : ℕ} (slot : ℕ) (g : Group)
    → slot < g.next_slot
    → Accounts c 0 g
    → Accounts c 0 (park_reconcile slot g)
unfolding park_reconcile
park_reconcile-Accounts slot g lt a = elim (Bool-cases (g.slots slot)) [
  | inl c ↦ ground (arith, release_token-Accounts (sub_tokens 1 g) (sub_tokens-Accounts 0 g a))
  | inr c ↦ ground (
    arith,
    release_token-Accounts (sub_tokens 1 g) (sub_tokens-Accounts 0 g a),
    claim-Accounts slot g lt c a,
    drain_and_pay-Accounts 0 (record (sub_tokens 1 g) { slots = write_slot slot true g.slots })
        (claim-Accounts slot g lt c a),
  )
]

emit-Accounts : {c : ℕ} (es : List Event) (g : Group) → Accounts c 0 g → Accounts c 0 (emit es g)
emit-Accounts es g a = record { slots = a.slots; level = a.level }

park-Accounts :
    {c : ℕ} (task : Rank) (pool : Option ℕ) (clear_idle : Bool) (g : Group)
    → Accounts c 0 g
    → Accounts c 0 (park task pool clear_idle g)
park-Accounts task pool clear_idle g a =
    park_reconcile-Accounts (park_publish task pool clear_idle g).0
      (park_publish task pool clear_idle g).1 (published task pool clear_idle g)
      (park_publish-Accounts task pool clear_idle g a)

pub try_submit-Accounts :
    {c : ℕ} (task : Rank) (pool : Option ℕ) (clear_idle : Bool) (g : Group)
    → Accounts c 0 g
    → Accounts c 0 (try_submit task pool clear_idle g).1
unfolding try_submit
try_submit-Accounts task pool clear_idle g a = ground (
  arith,
  emit-Accounts (submitted task pool clear_idle false ∷ []) (make_running_lock (sub_tokens 1 g))
      (running-Accounts (sub_tokens 1 g) (sub_tokens-Accounts 0 g a)),
  park-Accounts task pool clear_idle g a,
)

pub lock-Accounts :
    {c : ℕ} (rank : Rank) (g : Group) → Accounts c 0 g → Accounts c 0 (lock rank g).1
unfolding lock
lock-Accounts rank g a = record {
  slots = a.slots;
  level = omega (
    arith,
    a.level,
    locked-clear_notified g.tokens (insert_handle new g.queue),
    locked-insert_handle new g.queue refl,
  );
}
  where
    new : LockHandle
    new = record { handle = g.next_handle; rank = rank; locked = false; notified = false }

pub lock_handle-Accounts :
    {c : ℕ} (h : ℕ) (g : Group) → Accounts c 0 g → Accounts c 0 (lock_handle h g).1
unfolding lock_handle
lock_handle-Accounts h g a = elim (Option-cases (take_handle h g.queue)) [
  | inl p ↦ rw (p, lock_handle) a
  | inr (entry, p) ↦ elim (Bool-cases entry.locked) [
    | inl c ↦ rw (p, c, lock_handle) a
    | inr c ↦ elim (Option-cases (try_lock h g.tokens g.queue)) [
      | inl q ↦ rw (p, c, q, lock_handle) a
      | inr (queue, q) ↦
          rw (p, c, q, lock_handle)
            (record {
              slots = a.slots;
              level = omega (
                arith,
                a.level,
                (try_lock_lem h g.tokens g.queue queue entry p c q).0,
                -ℤ_parts g.tokens (pos 1),
              );
            })
    ]
  ]
]

remove_handle-Accounts :
    {c : ℕ} (h : ℕ) (entry : LockHandle) (g : Group)
    → take_handle h g.queue ≡ some entry
    → Accounts c 0 g
    → Accounts c 0 (remove_handle h entry g)
remove_handle-Accounts h entry g p a = elim (Bool-cases entry.locked) [
  | inl c ↦ rw c (record {
    slots = a.slots;
    level = ground (
      arith,
      a.level,
      +ℤ_parts g.tokens (pos 1),
      locked-mark_notified (g.tokens +ℤ pos 1) (erase_handle h g.queue),
      locked-erase_handle h g.queue entry p,
    );
  })
  | inr c ↦ rw c (record {
    slots = a.slots;
    level = ground (
      arith,
      a.level,
      locked-mark_notified g.tokens (erase_handle h g.queue),
      locked-erase_handle h g.queue entry p,
    );
  })
]

pub unlock-Accounts : {c : ℕ} (h : ℕ) (g : Group) → Accounts c 0 g → Accounts c 0 (unlock h g)
unfolding unlock
unlock-Accounts h g a = elim (Option-cases (take_handle h g.queue)) [
  | inl p ↦ rw (p, unlock) a
  | inr (entry, p) ↦
      rw (p, unlock)
        (ground (
          arith,
          remove_handle-Accounts h entry g p a,
          drain_and_pay-Accounts 0 (remove_handle h entry g) (remove_handle-Accounts h entry g p a),
        ))
]
