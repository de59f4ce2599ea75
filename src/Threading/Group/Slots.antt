-- ===== src/Threading/Group/Slots.antt =====
-- The slots of the waiters that are parked in a group (src/threading/scheduler/Group.cpp), as arbiters of
-- who counts a waiter.
use nuclear.Base.{
  ℕ, suc, ◌+◌, ◌<◌, ◌≤◌, ◌≡◌, refl, Bool, true, false, ◌==◌, if◌then◌else◌, List, [], ◌∷◌, some,
  length, arith, ==_iff,
}
use nuclear.Threading.Priority.{priority_buckets}
use nuclear.Threading.Buckets.{
  enqueue, dequeue, sum_queue, sum_buckets, sum_buckets-enqueue, length-enqueue,
  sum_buckets-dequeue,
}
use nuclear.Threading.Group.{WaitEntry, write_slot}

abbrev pub counts : (ℕ → Bool) → WaitEntry → ℕ
counts slots e = if slots e.slot then 1 else 0

abbrev pub at_slot : ℕ → WaitEntry → ℕ
at_slot s e = if e.slot == s then 1 else 0

sum_queue-write_slot :
    (s : ℕ) (b : Bool) (slots : ℕ → Bool) (q : List WaitEntry)
    → sum_queue (at_slot s) q ≡ 0
    → sum_queue (counts (write_slot s b slots)) q ≡ sum_queue (counts slots) q
unfolding sum_queue
sum_queue-write_slot s b slots [] h = refl
sum_queue-write_slot s b slots (e ∷ q) h = ground (arith, sum_queue-write_slot s b slots q)

pub sum_buckets-write_slot :
    (s : ℕ) (b : Bool) (slots : ℕ → Bool) (qs : List (List WaitEntry))
    → sum_buckets (at_slot s) qs ≡ 0
    → sum_buckets (counts (write_slot s b slots)) qs ≡ sum_buckets (counts slots) qs
unfolding sum_buckets
sum_buckets-write_slot s b slots [] h = refl
sum_buckets-write_slot s b slots (q ∷ qs) h = omega (
  arith,
  sum_queue-write_slot s b slots q (omega arith),
  sum_buckets-write_slot s b slots qs (omega arith),
)

sum_queue-claim :
    (s : ℕ) (slots : ℕ → Bool) (q : List WaitEntry)
    → slots s ≡ false
    → sum_queue (counts (write_slot s true slots)) q
      ≡ sum_queue (counts slots) q + sum_queue (at_slot s) q
unfolding sum_queue
sum_queue-claim s slots [] h = refl
sum_queue-claim s slots (e ∷ q) h = ground (arith, sum_queue-claim s slots q)

pub sum_buckets-claim :
    (s : ℕ) (slots : ℕ → Bool) (qs : List (List WaitEntry))
    → slots s ≡ false
    → sum_buckets (counts (write_slot s true slots)) qs
      ≡ sum_buckets (counts slots) qs + sum_buckets (at_slot s) qs
unfolding sum_buckets
sum_buckets-claim s slots [] h = refl
sum_buckets-claim s slots (q ∷ qs) h =
    omega (arith, sum_queue-claim s slots q h, sum_buckets-claim s slots qs h)

-- A slot is in the buckets at most once, a slot that is not given out is nowhere, and a slot that is
-- given out and clear is there.
pub record Slots (slots : ℕ → Bool) (next_slot : ℕ) (qs : List (List WaitEntry)) : Type 0 where
  pub size : length qs ≡ priority_buckets
  pub once : (s : ℕ) → sum_buckets (at_slot s) qs ≤ 1
  pub fresh : (s : ℕ) → next_slot ≤ s → sum_buckets (at_slot s) qs ≡ 0
  pub kept : (s : ℕ) → s < next_slot → slots s ≡ false → sum_buckets (at_slot s) qs ≡ 1

at_own : (e : WaitEntry) → at_slot e.slot e ≡ 1
at_own e = ground (arith, ==_iff e.slot e.slot)

-- Taking a waiter out and setting its slot.
pub Slots-dequeue :
    (slots : ℕ → Bool) (next_slot : ℕ) (qs rest : List (List WaitEntry)) (e : WaitEntry)
    → dequeue qs ≡ some (e, rest)
    → Slots slots next_slot qs
    → Slots (write_slot e.slot true slots) next_slot rest
Slots-dequeue slots next_slot qs rest e p a = record {
  size = cc (a.size, (sum_buckets-dequeue (λ _. 0) qs rest e p).1);
  once = λ s. omega (arith, a.once s, (sum_buckets-dequeue (at_slot s) qs rest e p).0);
  fresh = λ s h. omega (arith, a.fresh s h, (sum_buckets-dequeue (at_slot s) qs rest e p).0);
  kept = λ s h f. ground (arith, a.kept s h, (sum_buckets-dequeue (at_slot s) qs rest e p).0);
}

pub counted-dequeue :
    (slots : ℕ → Bool) (next_slot : ℕ) (qs rest : List (List WaitEntry)) (e : WaitEntry)
    → dequeue qs ≡ some (e, rest)
    → Slots slots next_slot qs
    → sum_buckets (counts slots) qs
      ≡ counts slots e + sum_buckets (counts (write_slot e.slot true slots)) rest
counted-dequeue slots next_slot qs rest e p a = omega (
  arith,
  (sum_buckets-dequeue (counts slots) qs rest e p).0,
  sum_buckets-write_slot e.slot true slots rest (
      omega (arith, a.once e.slot, at_own e, (sum_buckets-dequeue (at_slot e.slot) qs rest e p).0)),
)

-- Publishing a waiter under the next slot.
pub Slots-enqueue :
    (slots : ℕ → Bool) (next_slot i : ℕ) (qs : List (List WaitEntry)) (e : WaitEntry)
    → i < priority_buckets
    → e.slot ≡ next_slot
    → Slots slots next_slot qs
    → Slots (write_slot next_slot false slots) (suc next_slot) (enqueue i e qs)
Slots-enqueue slots next_slot i qs e lt own a = record {
  size = cc (a.size, length-enqueue i e qs);
  once = λ s. ground (arith, a.once s, a.fresh s, grown s);
  fresh = λ s h. ground (arith, a.fresh s, grown s);
  kept = λ s h f. ground (arith, a.kept s, a.fresh s, grown s);
}
  where
    grown :
        (s : ℕ)
        → sum_buckets (at_slot s) (enqueue i e qs) ≡ sum_buckets (at_slot s) qs + at_slot s e
    grown s = sum_buckets-enqueue (at_slot s) i e qs (omega (arith, a.size))

pub counted-enqueue :
    (slots : ℕ → Bool) (next_slot i : ℕ) (qs : List (List WaitEntry)) (e : WaitEntry)
    → i < priority_buckets
    → e.slot ≡ next_slot
    → Slots slots next_slot qs
    → sum_buckets (counts (write_slot next_slot false slots)) (enqueue i e qs)
      ≡ sum_buckets (counts slots) qs
counted-enqueue slots next_slot i qs e lt own a = ground (
  arith,
  sum_buckets-enqueue (counts (write_slot next_slot false slots)) i e qs (omega (arith, a.size)),
  sum_buckets-write_slot next_slot false slots qs (a.fresh next_slot (omega arith)),
)

-- Setting the slot of a waiter that is still parked.
pub Slots-claim :
    (s next_slot : ℕ) (slots : ℕ → Bool) (qs : List (List WaitEntry))
    → Slots slots next_slot qs
    → Slots (write_slot s true slots) next_slot qs
Slots-claim s next_slot slots qs a = record {
  size = a.size;
  once = a.once;
  fresh = a.fresh;
  kept = λ t h f. ground (arith, a.kept t h);
}
