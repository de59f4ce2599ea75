-- ===== src/Threading/Priority.antt =====
-- src/threading/scheduler/queue/Priority.hpp: the bucket of a priority, and the order of tasks and
-- lock handles by priority and id (src/threading/ReactionTask.hpp, src/threading/scheduler/Group.hpp).
use nuclear.Base.{ℕ, ◌+◌, ◌<◌, ◌≤◌, ◌≡◌, Bool, true, false, ltb, ◌==◌, if◌then◌else◌, arith, ◌⊎◌}
use nuclear.Base.Int.{ℤ, pos, pos_part, neg_part, ltb_ℤ, ◌≤ℤ◌, eq_of_parts}

pub data PriorityLevel : Type 0 where
  realtime high normal low idle : PriorityLevel

abbrev pub priority_buckets : ℕ
priority_buckets = 5

unfoldable pub priority_level : ℤ → PriorityLevel
priority_level priority =
    if ltb_ℤ priority (pos 250)
    then idle
    else if ltb_ℤ priority (pos 500)
    then low
    else if ltb_ℤ priority (pos 750)
    then normal
    else if ltb_ℤ priority (pos 1000)
    then high
    else realtime

abbrev pub level_index : PriorityLevel → ℕ
level_index realtime = 0
level_index high = 1
level_index normal = 2
level_index low = 3
level_index idle = 4

unfoldable pub priority_index : ℤ → ℕ
unfolding priority_level
priority_index priority = level_index (priority_level priority)

-- The index of a bucket is in range, and a higher priority never has a larger index.
pub priority_index_mono :
    (a b : ℤ)
    → a ≤ℤ b
    → (priority_index b ≤ priority_index a) × (priority_index a < priority_buckets)
unfolding priority_index
priority_index_mono a b h = ground arith

-- The priority and the id by which tasks and lock handles are ordered.
pub record Rank : Type 0 where
  pub priority : ℤ
  pub task_id : ℕ

abbrev pub eq_ℤ : ℤ → ℤ → Bool
eq_ℤ a b = pos_part a + neg_part b == pos_part b + neg_part a

-- `operator<`: a higher priority first, and a lower id among equals.
unfoldable pub precedes : Rank → Rank → Bool
precedes a b =
    if eq_ℤ a.priority b.priority then ltb a.task_id b.task_id else ltb_ℤ b.priority a.priority

-- The order is strict and total: of two ranks exactly one precedes the other, unless they agree in
-- priority and id, and then none does.
pub precedes_total :
    (a b : Rank)
    → ((precedes a b ≡ true) × (precedes b a ≡ false))
      ⊎ (((precedes a b ≡ false) × (precedes b a ≡ true))
          ⊎ ((precedes a b ≡ false)
              × (precedes b a ≡ false)
              × (a.priority ≡ b.priority)
              × (a.task_id ≡ b.task_id)))
unfolding precedes
precedes_total a b = ground (arith, eq_of_parts a.priority b.priority)

-- The order is transitive.
pub precedes_trans :
    (a b c : Rank) → precedes a b ≡ true → precedes b c ≡ true → precedes a c ≡ true
unfolding precedes
precedes_trans a b c h k =
    ground (arith, eq_of_parts a.priority b.priority, eq_of_parts b.priority c.priority)
