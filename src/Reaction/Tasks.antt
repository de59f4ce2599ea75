-- ===== src/Reaction/Tasks.antt =====
-- src/threading/Reaction.cpp, Reaction.hpp, ReactionTask.cpp, ReactionTask.hpp and ReactionHandle.cpp. An id is a
-- 64 bit number. What the DSL computes for a task is an argument.
use nuclear.Base.{ℕ, ◌+◌, ◌%◌, ◌^◌, Option, none, some, Bool, true, false, not, ◌||◌, if◌then◌else◌}
use nuclear.Base.Int.{ℤ, pos, ◌+ℤ◌, ◌-ℤ◌}

-- `Reaction`: what its tasks and its handles use.
pub record Reaction : Type 0 where
  pub id : ℕ
  pub emit_stats : Bool
  pub active_tasks : ℤ
  pub enabled : Bool

-- `IDPair`, and what `make_statistics` stores.
pub record IdPair : Type 0 where
  pub reaction_id : ℕ
  pub task_id : ℕ

pub record Statistics : Type 0 where
  pub cause : IdPair
  pub target : IdPair

-- `util::Inline`.
pub data Inline : Type 0 where
  never : Inline
  neutral : Inline
  always : Inline

-- `ReactionTask`; the parent is the id of its reaction.
pub record ReactionTask : Type 0 where
  pub parent : Option ℕ
  pub id : ℕ
  pub run_inline : Bool
  pub should_inline : Inline
  pub statistics : Option Statistics

-- The static counter of task ids, the thread's `current_task`, and the reaction that a task is made for.
pub record Threads : Type 0 where
  pub id_source : ℕ
  pub current_task : Option ReactionTask
  pub reaction : Option Reaction

-- `next_id`.
unfoldable pub next_id : Threads → ℕ × Threads
next_id w = (w.id_source, record w { id_source = (w.id_source + 1) % 2 ^ 64 })

abbrev pub id_of : Option Reaction → ℕ
id_of none = 0
id_of (some r) = r.id

abbrev pub parent_of : Option Reaction → Option ℕ
parent_of none = none
parent_of (some r) = some r.id

abbrev pub id_or_zero : Option ℕ → ℕ
id_or_zero none = 0
id_or_zero (some id) = id

abbrev pub cause_of : Option ReactionTask → IdPair
cause_of none = record { reaction_id = 0; task_id = 0 }
cause_of (some t) = record { reaction_id = id_or_zero t.parent; task_id = t.id }

-- Whether the parent, and the causing task, leave the statistics off.
unfoldable pub parent_silent : Option Reaction → Bool
parent_silent none = false
parent_silent (some r) = not r.emit_stats

unfoldable pub is_none : Option Statistics → Bool
is_none none = true
is_none (some s) = false

unfoldable pub cause_silent : Option ReactionTask → Bool
cause_silent none = false
cause_silent (some t) = is_none t.statistics

unfoldable pub make_statistics : Option Reaction → ℕ → Option ReactionTask → Option Statistics
make_statistics parent id current =
    if parent_silent parent || cause_silent current
    then none
    else some (record {
      cause = cause_of current;
      target = record { reaction_id = id_of parent; task_id = id };
    })

unfoldable pub inline_of : Inline → Bool → Bool
inline_of never request_inline = false
inline_of always request_inline = true
inline_of neutral request_inline = request_inline

abbrev pub add_active : ℤ → Option Reaction → Option Reaction
add_active n none = none
add_active n (some r) = some (record r { active_tasks = r.active_tasks +ℤ n })

abbrev pub sub_active : ℤ → Option Reaction → Option Reaction
sub_active n none = none
sub_active n (some r) = some (record r { active_tasks = r.active_tasks -ℤ n })

-- The constructor of `ReactionTask`.
unfoldable pub new_task : Inline → Bool → Threads → ReactionTask × Threads
new_task should_inline request_inline w =
    let (id, numbered) = next_id w in
    (
      record {
        parent = parent_of w.reaction;
        id = id;
        run_inline = inline_of should_inline request_inline;
        should_inline = should_inline;
        statistics = make_statistics w.reaction id w.current_task;
      },
      record numbered { reaction = add_active (pos 1) w.reaction },
    )

-- `~ReactionTask`.
unfoldable pub delete_task : Threads → Threads
delete_task w = record w { reaction = sub_active (pos 1) w.reaction }

-- `run`, for the effect of the callback; an exception does not leave it.
unfoldable pub run : (Threads → Threads) → ReactionTask → Threads → Threads
run callback task w =
    let before = w.current_task in
    record (callback (record w { current_task = some task })) { current_task = before }

-- `ReactionHandle`: its reaction, if that is alive.
unfoldable pub enable : Bool → Option Reaction → Option Reaction
enable set none = none
enable set (some r) = some (record r { enabled = set })

unfoldable pub enabled : Option Reaction → Bool
enabled none = false
enabled (some r) = r.enabled
