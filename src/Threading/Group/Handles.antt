-- ===== src/Threading/Group/Handles.antt =====
-- The sorted queue of lock handles of a group (src/threading/scheduler/Group.cpp): the loops over it that
-- count the free tokens down. A handle's shared state is its entry in the queue, where it stays from
-- `Group::lock` to the destructor of its GroupLock.
use nuclear.Base.{
  ℕ, Bool, true, false, not, ◌&&◌, ◌==◌, if◌then◌else◌, List, [], ◌∷◌, Option, none, some,
}
use nuclear.Base.Int.{ℤ, pos, ltb_ℤ, ◌-ℤ◌}
use nuclear.Threading.Priority.{Rank, precedes}

pub record LockHandle : Type 0 where
  pub handle : ℕ
  pub rank : Rank
  pub locked : Bool
  pub notified : Bool

-- `free -= h->locked ? 0 : 1`.
abbrev pub charge : ℤ → LockHandle → ℤ
charge free h = if h.locked then free else free -ℤ pos 1

-- The condition under which a handle is told that it can lock.
abbrev may_notify : ℤ → LockHandle → Bool
may_notify free h = not (ltb_ℤ free (pos 0)) && not h.locked && not h.notified

-- The handles that are notified, and the queue in which they are marked so.
unfoldable pub offered : ℤ → List LockHandle → List ℕ
offered free [] = []
offered free (h ∷ queue) =
    let rest = offered (charge free h) queue in
    if may_notify (charge free h) h then h.handle ∷ rest else rest

unfoldable pub mark_notified : ℤ → List LockHandle → List LockHandle
mark_notified free [] = []
mark_notified free (h ∷ queue) =
    (if may_notify (charge free h) h then record h { notified = true } else h)
    ∷ mark_notified (charge free h) queue

-- The loop of `Group::lock` over the handles that have no token to take.
unfoldable pub clear_notified : ℤ → List LockHandle → List LockHandle
clear_notified free [] = []
clear_notified free (h ∷ queue) =
    (if ltb_ℤ (charge free h) (pos 0) then record h { notified = false } else h)
    ∷ clear_notified (charge free h) queue

-- The insertion at `std::lower_bound`.
unfoldable pub insert_handle : LockHandle → List LockHandle → List LockHandle
insert_handle new [] = new ∷ []
insert_handle new (h ∷ queue) =
    let rest = insert_handle new queue in
    if precedes h.rank new.rank then h ∷ rest else new ∷ h ∷ queue

-- The entry of a handle, and the queue without it.
unfoldable pub take_handle : ℕ → List LockHandle → Option LockHandle
take_handle n [] = none
take_handle n (h ∷ queue) = let rest = take_handle n queue in if h.handle == n then some h else rest

unfoldable pub erase_handle : ℕ → List LockHandle → List LockHandle
erase_handle n [] = []
erase_handle n (h ∷ queue) =
    let rest = erase_handle n queue in if h.handle == n then queue else h ∷ rest

-- The loop of `GroupLock::lock`: the queue with the handle locked, or none where it is refused.
unfoldable pub try_lock : ℕ → ℤ → List LockHandle → Option (List LockHandle)
try_lock n free [] = none
try_lock n free (h ∷ queue) = elim (ltb_ℤ (charge free h) (pos 0)) [
  | true ↦ none
  | false ↦ elim (h.handle == n) [
    | true ↦ some (record h { locked = true } ∷ queue)
    | false ↦ elim (try_lock n (charge free h) queue) [ none ↦ none | some rest ↦ some (h ∷ rest) ]
  ]
]
