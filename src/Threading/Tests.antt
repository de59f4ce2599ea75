-- ===== src/Threading/Tests.antt =====
-- Runs of the models of src/threading/scheduler.
use nuclear.Base.{suc, ◌+◌, ◌<◌, ◌≤◌, ◌≡◌, refl, true, false, arith, none, some}
use nuclear.Base.Int.{pos, pos_part, neg_part, ltb_ℤ, ◌+ℤ◌, ◌-ℤ◌}
use nuclear.Threading.Priority.{Rank, priority_level, priority_index, precedes}
use nuclear.Threading.Buckets.{empty_buckets, enqueue, dequeue}
use nuclear.Threading.Group.{
  lock, Group, WaitEntry, new_group, try_submit, park_publish, park_reconcile, finish,
  release_token, drain_and_pay, drain_one_to_pool,
}
use nuclear.Threading.Group.Accounts.{locked, counted}
use nuclear.Threading.Group.Steps.{
  Reach, initial, later, whole, publishes, submits, finishes, Reach-balance, WholeReach, untouched,
  next,
}
use nuclear.Threading.Group.Room.{WholeReach-bound}
use nuclear.Threading.Group.Phantom.{park_reconcile_phantom}

abbrev urgent : Rank
urgent = record { priority = pos 750; task_id = 9 }

abbrev early : Rank
early = record { priority = pos 500; task_id = 1 }

abbrev late : Rank
late = record { priority = pos 500; task_id = 4 }

urgent-precedes : precedes urgent early ≡ true
unfolding precedes
urgent-precedes = refl

early-precedes : precedes early late ≡ true
unfolding precedes
early-precedes = refl

-- One task at a time: `early` runs, `urgent` is published, `late` parks and is counted, and `early`
-- finishes, whose drain starts `urgent` before it has reconciled.
abbrev running_one : Group
running_one = (try_submit early none false (new_group 1)).1

abbrev published_one : Group
published_one = (park_publish urgent none false running_one).1

abbrev parked_two : Group
parked_two = (try_submit late none false published_one).1

abbrev drained_one : Group
drained_one = finish parked_two

some_running : 0 < parked_two.running
unfolding try_submit park_publish park_reconcile priority_index ◌-ℤ◌ ◌+ℤ◌
some_running = omega arith

early_runs : 0 < running_one.running
unfolding try_submit
early_runs = omega arith

given_out : 0 < drained_one.next_slot
unfolding try_submit park_publish park_reconcile priority_index ◌-ℤ◌ ◌+ℤ◌ finish release_token
    drain_and_pay drain_one_to_pool enqueue dequeue priority_level
given_out = omega arith

drained-Reach : Reach 1 drained_one
drained-Reach =
    later
      (later
        (later (later initial (whole (submits early none false))) (publishes urgent none false))
        (whole (submits late none false)))
      (whole (finishes some_running))

Reach-balance_example :
    pos_part drained_one.tokens + drained_one.running + locked drained_one + counted drained_one
    ≡ 1 + neg_part drained_one.tokens
Reach-balance_example = Reach-balance drained-Reach

finished-WholeReach : WholeReach 1 (finish running_one)
finished-WholeReach = next (next untouched (submits early none false)) (finishes early_runs)

WholeReach-bound_example : (finish running_one).running + locked (finish running_one) ≤ 1
WholeReach-bound_example = WholeReach-bound finished-WholeReach

abbrev late_entry : WaitEntry
late_entry = record { task = late; pool = none; clear_idle = false; slot = 1 }

urgent_claimed : drained_one.slots 0 ≡ true
unfolding try_submit park_publish park_reconcile priority_index ◌-ℤ◌ ◌+ℤ◌ finish release_token
    drain_and_pay drain_one_to_pool enqueue dequeue priority_level
urgent_claimed = refl

late_counted : drained_one.slots 1 ≡ true
unfolding try_submit park_publish park_reconcile priority_index ◌-ℤ◌ ◌+ℤ◌ finish release_token
    drain_and_pay drain_one_to_pool enqueue dequeue priority_level
late_counted = refl

late_owed : ltb_ℤ drained_one.tokens (pos 0) ≡ true
unfolding try_submit park_publish park_reconcile priority_index ◌-ℤ◌ ◌+ℤ◌ finish release_token
    drain_and_pay drain_one_to_pool enqueue dequeue priority_level
late_owed = refl

late_next : dequeue drained_one.wait_buckets ≡ some (late_entry, empty_buckets)
unfolding try_submit park_publish park_reconcile priority_index ◌-ℤ◌ ◌+ℤ◌ finish release_token
    drain_and_pay drain_one_to_pool enqueue dequeue priority_level
late_next = refl

park_reconcile_phantom_example :
    ((park_reconcile 0 drained_one).running ≡ suc drained_one.running)
    × ((park_reconcile 0 drained_one).tokens ≡ drained_one.tokens)
park_reconcile_phantom_example =
    park_reconcile_phantom 0 drained_one late_entry empty_buckets urgent_claimed late_owed late_next
      late_counted

-- With one task allowed, two run.
two_run : (park_reconcile 0 drained_one).running ≡ 2
unfolding try_submit park_publish park_reconcile priority_index ◌-ℤ◌ ◌+ℤ◌ finish release_token
    drain_and_pay drain_one_to_pool enqueue dequeue priority_level
two_run = refl

abbrev waiting_handle : Group
waiting_handle = (lock late running_one).1
