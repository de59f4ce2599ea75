-- ===== src/Dsl/Always.antt =====
-- src/dsl/word/Always.hpp: the tasks of a reaction that always runs, in its pool of one thread, whose
-- queues are those of Threading/Buckets. The idle task has a priority that is one lower; the priority of
-- a reaction is one number here, and the pool accepts tasks.
mod Queues
pub mod Runs
pub mod Piles
mod Tests
use nuclear.Base.{ℕ, ◌≡◌, Bool, true, false, ◌&&◌, List, Option, none, some, if◌then◌else◌}
use nuclear.Base.Int.{ℤ, pos, ◌-ℤ◌}
use nuclear.Threading.Priority.{priority_index}
use nuclear.Threading.Buckets.{empty_buckets, enqueue, dequeue}

-- The tasks of the reaction, and its idle tasks.
pub data Kind : Type 0 where
  of_reaction of_idle : Kind

-- What waits in the pool.
pub record Always : Type 0 where
  pub enabled : Bool
  pub priority : ℤ
  pub buckets : List (List Kind)

-- The bucket of a task.
unfoldable pub bucket : Kind → ℤ → ℕ
bucket of_reaction priority = priority_index priority
bucket of_idle priority = priority_index (priority -ℤ pos 1)

unfoldable pub submit : Kind → Always → Always
submit kind s = record s { buckets = enqueue (bucket kind s.priority) kind s.buckets }

-- `submit` of `get_task`, which is null when the reaction is not enabled or its other words refuse; the
-- argument is what those say.
unfoldable pub submit_task : Bool → Always → Always
submit_task accepts s = if s.enabled && accepts then submit of_reaction s else s

-- `bind`.
unfoldable pub bind : ℤ → Bool → Always
bind priority accepts =
    submit of_idle
      (submit_task accepts record { enabled = true; priority = priority; buckets = empty_buckets })

-- The unbinder.
unfoldable pub unbind : Always → Always
unbind s = record s { enabled = false }

-- What a task does in the end: `post_run` unless an exception went past it, or the callback of an idle
-- task.
unfoldable pub after_run : Kind → Bool → Bool → Always → Always
after_run of_reaction throws accepts s = if throws then s else submit_task accepts s
after_run of_idle throws accepts s = submit of_idle (submit_task accepts s)

-- The next task that the thread runs, if any; `throws` is what the reaction's callback does.
unfoldable pub run_next : Bool → Bool → Always → Option Always
run_next throws accepts s = elim (dequeue s.buckets) [
  | none ↦ none
  | some (kind, rest) ↦ some (after_run kind throws accepts (record s { buckets = rest }))
]

-- What may happen: the thread runs a task, or a handle enables, disables or unbinds the reaction.
pub data Step : Always → Always → Type 0 where
  run : (throws accepts : Bool) (s t : Always) → run_next throws accepts s ≡ some t → Step s t
  enable : (set : Bool) (s : Always) → Step s (record s { enabled = set })
  unbound : (s : Always) → Step s (unbind s)

pub data Reach (s : Always) : Always → Type 0 where
  here : Reach s s
  next : {t u : Always} → Reach s t → Step t u → Reach s u
