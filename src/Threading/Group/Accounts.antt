-- ===== src/Threading/Group/Accounts.antt =====
-- The account of a group's tokens (src/threading/scheduler/Group.cpp): each operation against the sum of
-- the free tokens, the running locks, the locked handles and the counted waiters.
use nuclear.Base.{
  ℕ, suc, ◌+◌, ◌≤◌, ◌≡◌, refl, false, if◌then◌else◌, List, [], ◌∷◌, some, arith, Bool-cases,
  Option-cases, inl, inr,
}
use nuclear.Base.Int.{ℤ, pos, pos_part, neg_part, ◌-ℤ◌, +ℤ_parts, -ℤ_parts}
use nuclear.Threading.Buckets.{dequeue, sum_buckets}
use nuclear.Threading.Group.{
  Group, add_tokens, sub_tokens, drain_one_to_pool, drain_and_pay, notify_slow_path, release_token,
}
use nuclear.Threading.Group.Handles.{
  LockHandle, charge, mark_notified, clear_notified, insert_handle, take_handle, erase_handle,
  try_lock,
}
use nuclear.Threading.Group.Slots.{counts, Slots, Slots-dequeue, counted-dequeue}

-- The handles of a queue that are locked.
unfoldable pub count_locked : List LockHandle → ℕ
count_locked [] = 0
count_locked (h ∷ queue) = (if h.locked then 1 else 0) + count_locked queue

-- The handles that hold a token, and the parked waiters that are counted.
abbrev pub locked : Group → ℕ
locked g = count_locked g.queue

abbrev pub counted : Group → ℕ
counted g = sum_buckets (counts g.slots) g.wait_buckets

-- The slots are kept, and every token is free, held by a running task or a locked handle, or
-- reserved by a counted waiter, up to the tokens that are owed.
pub record Accounts (concurrency owed : ℕ) (g : Group) : Type 0 where
  pub slots : Slots g.slots g.next_slot g.wait_buckets
  pub level :
      pos_part g.tokens + g.running + locked g + counted g + owed ≡ concurrency + neg_part g.tokens

pub locked-mark_notified :
    (free : ℤ) (q : List LockHandle) → count_locked (mark_notified free q) ≡ count_locked q
unfolding mark_notified count_locked
locked-mark_notified free [] = refl
locked-mark_notified free (h ∷ q) =
    ground (arith, locked-mark_notified free q, locked-mark_notified (free -ℤ pos 1) q)

pub locked-clear_notified :
    (free : ℤ) (q : List LockHandle) → count_locked (clear_notified free q) ≡ count_locked q
unfolding clear_notified count_locked
locked-clear_notified free [] = refl
locked-clear_notified free (h ∷ q) =
    ground (arith, locked-clear_notified free q, locked-clear_notified (free -ℤ pos 1) q)

pub locked-insert_handle :
    (new : LockHandle) (q : List LockHandle)
    → new.locked ≡ false
    → count_locked (insert_handle new q) ≡ count_locked q
unfolding insert_handle count_locked
locked-insert_handle new [] e = ground arith
locked-insert_handle new (h ∷ q) e = ground (arith, locked-insert_handle new q e)

pub locked-erase_handle :
    (n : ℕ) (q : List LockHandle) (h : LockHandle)
    → take_handle n q ≡ some h
    → count_locked q ≡ (if h.locked then 1 else 0) + count_locked (erase_handle n q)
unfolding take_handle erase_handle count_locked
locked-erase_handle n [] h e = cc
locked-erase_handle n (x ∷ q) h e = ground (arith, locked-erase_handle n q h)

-- A handle that is found unlocked is locked by `try_lock` or by nothing, and only with a free token.
pub try_lock_lem :
    (n : ℕ) (free : ℤ) (q locking : List LockHandle) (h : LockHandle)
    → take_handle n q ≡ some h
    → h.locked ≡ false
    → try_lock n free q ≡ some locking
    → (count_locked locking ≡ suc (count_locked q)) × (1 + neg_part free ≤ pos_part free)
unfolding take_handle try_lock count_locked
try_lock_lem n free [] locking h t u e = cc
try_lock_lem n free (x ∷ q) locking h t u e = elim (Option-cases (try_lock n (charge free x) q)) [
  | inl p ↦ ground (arith, -ℤ_parts free (pos 1))
  | inr (rest, p) ↦ ground (arith, try_lock_lem n (charge free x) q rest h, -ℤ_parts free (pos 1))
]

pub drain_and_pay-Accounts :
    {c : ℕ} (owed : ℕ) (g : Group) → Accounts c owed g → Accounts c owed (drain_and_pay g)
unfolding drain_and_pay drain_one_to_pool
drain_and_pay-Accounts owed g a = elim (Option-cases (dequeue g.wait_buckets)) [
  | inl p ↦ rw (p, drain_and_pay, drain_one_to_pool) a
  | inr ((e, rest), p) ↦ elim (Bool-cases (g.slots e.slot)) [
    | inl c ↦
        rw (p, c, drain_and_pay, drain_one_to_pool)
          record {
            slots = Slots-dequeue g.slots g.next_slot g.wait_buckets rest e p a.slots;
            level = ground (
              arith,
              a.level,
              counted-dequeue g.slots g.next_slot g.wait_buckets rest e p a.slots,
            );
          }
    | inr c ↦
        rw (p, c, drain_and_pay, drain_one_to_pool)
          record {
            slots = Slots-dequeue g.slots g.next_slot g.wait_buckets rest e p a.slots;
            level = ground (
              arith,
              a.level,
              counted-dequeue g.slots g.next_slot g.wait_buckets rest e p a.slots,
              -ℤ_parts g.tokens (pos 1),
            );
          }
  ]
]

pub add_tokens-Accounts :
    {c : ℕ} (owed : ℕ) (g : Group) → Accounts c (suc owed) g → Accounts c owed (add_tokens 1 g)
add_tokens-Accounts owed g a = record {
  slots = a.slots;
  level = omega (arith, a.level, +ℤ_parts g.tokens (pos 1));
}

pub sub_tokens-Accounts :
    {c : ℕ} (owed : ℕ) (g : Group) → Accounts c owed g → Accounts c (suc owed) (sub_tokens 1 g)
sub_tokens-Accounts owed g a = record {
  slots = a.slots;
  level = omega (arith, a.level, -ℤ_parts g.tokens (pos 1));
}

pub notify_slow_path-Accounts :
    {c : ℕ} (owed : ℕ) (g : Group) → Accounts c owed g → Accounts c owed (notify_slow_path g)
unfolding notify_slow_path
notify_slow_path-Accounts owed g a = record {
  slots = a.slots;
  level = omega (arith, a.level, locked-mark_notified g.tokens g.queue);
}

pub release_token-Accounts : {c : ℕ} (g : Group) → Accounts c 1 g → Accounts c 0 (release_token g)
unfolding release_token
release_token-Accounts g a = ground (
  arith,
  drain_and_pay-Accounts 0 (add_tokens 1 g) (add_tokens-Accounts 0 g a),
  notify_slow_path-Accounts 0 (add_tokens 1 g) (add_tokens-Accounts 0 g a),
)
