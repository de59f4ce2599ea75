-- ===== src/Threading/Scheduler.antt =====
-- src/threading/scheduler/Scheduler.cpp and CombinedLock.cpp: the scheduler over its pools, which it uses through an
-- interface. A descriptor is a number, 0 for the main thread; a pool stands in one list, as the map of
-- shared pointers has it, and what is done to it is done there. `none` is an exception.
pub mod Pools
pub mod Counts
mod Tests
use nuclear.Base.{
  ℕ, suc, ◌+◌, ◌-◌, ◌==◌, List, [], ◌∷◌, ◌++◌, Option, none, some, Bool, true, false, not, ◌&&◌,
  if◌then◌else◌, length, map,
}

-- What the scheduler calls of a pool, for its tasks `T`.
pub record PoolOps (P T : Type 0) : Type 0 where
  pub new : ℕ → P
  pub start : P → P
  pub stop : Bool → P → P
  pub notify : Bool → P → P
  pub submit : T → Bool → P → P
  pub add_idle_task : ℕ → P → P
  pub remove_idle_task : ℕ → P → P

pub record Scheduler (P : Type 0) : Type 0 where
  pub running : Bool
  pub started : Bool
  pub pools : List (ℕ × P)
  pub idle_tasks : List ℕ
  pub global_idle_count : ℕ

abbrev pub main_thread : ℕ
main_thread = 0

module _ {P : Type 0} where
  unfoldable pub find_pool : ℕ → List (ℕ × P) → Option P
  find_pool desc [] = none
  find_pool desc ((d, p) ∷ rest) =
      let later = find_pool desc rest in if d == desc then some p else later

  unfoldable pub change_pool : ℕ → (P → P) → List (ℕ × P) → List (ℕ × P)
  change_pool desc f [] = []
  change_pool desc f ((d, p) ∷ rest) =
      let later = change_pool desc f rest in if d == desc then (d, f p) ∷ rest else (d, p) ∷ later

-- `CombinedLock::lock`: whether all locks are held, and the locks after; each answers whether it is held.
unfoldable pub lock_all : {L : Type 0} → (L → Bool × L) → List L → Bool × List L
lock_all lock [] = (true, [])
lock_all lock (l ∷ ls) =
    let (held, after) = lock l in
    let (all, rest) = lock_all lock ls in if held then (all, after ∷ rest) else (false, after ∷ ls)

-- The ids of a list that are not the one to remove.
unfoldable pub remove_id : ℕ → List ℕ → List ℕ
remove_id id [] = []
remove_id id (x ∷ xs) = let rest = remove_id id xs in if x == id then rest else x ∷ rest

-- A task as the scheduler reads it; `cached` is the pool that its reaction has stored.
pub record Submission (T : Type 0) : Type 0 where
  pub payload : T
  pub pool_descriptor : ℕ
  pub has_parent : Bool
  pub cached : Option ℕ
  pub run_inline : Bool
  pub groups : List ℕ

-- Where a submitted task ends: it is no task, it was run, it went to a pool or to a group for its
-- pool, or an exception left `submit`, which is `noexcept`.
pub data Outcome : Type 0 where
  ignored : Outcome
  ran : Outcome
  to_pool : ℕ → Outcome
  to_group : ℕ → ℕ → Outcome
  terminated : Outcome

module _ {P T : Type 0} (ops : PoolOps P T) where
  -- A new pool, which is started unless it is the main thread's or the scheduler has not started.
  unfoldable pub create_pool : ℕ → Scheduler P → P
  create_pool desc s =
      if not (desc == main_thread) && s.started then ops.start (ops.new desc) else ops.new desc

  unfoldable pub get_pool : ℕ → Scheduler P → Option (P × Scheduler P)
  get_pool desc s = elim (find_pool desc s.pools) [
    | some p ↦ some (p, s)
    | none ↦
        if s.running
        then some (create_pool desc s, record s { pools = (desc, create_pool desc s) ∷ s.pools })
        else none
  ]

  abbrev pub change_found : ℕ → (P → P) → Option (P × Scheduler P) → Option (Scheduler P)
  change_found desc f none = none
  change_found desc f (some (p, s)) = some (record s { pools = change_pool desc f s.pools })

  -- A call of the pool that `get_pool` returns.
  unfoldable pub with_pool : ℕ → (P → P) → Scheduler P → Option (Scheduler P)
  with_pool desc f s = change_found desc f (get_pool desc s)

  -- `add_idle_task`, for all pools or for one.
  unfoldable pub add_idle_task : ℕ → Option ℕ → Scheduler P → Option (Scheduler P)
  add_idle_task reaction none s = with_pool main_thread (ops.notify true) (record s {
    idle_tasks = s.idle_tasks ++ reaction ∷ [];
    global_idle_count = s.global_idle_count + 1;
  })
  add_idle_task reaction (some desc) s = with_pool desc (ops.add_idle_task reaction) s

  -- `remove_idle_task`.
  unfoldable pub remove_idle_task : ℕ → Option ℕ → Scheduler P → Option (Scheduler P)
  remove_idle_task id none s = some (record s {
    idle_tasks = remove_id id s.idle_tasks;
    global_idle_count =
        s.global_idle_count - (length s.idle_tasks - length (remove_id id s.idle_tasks));
  })
  remove_idle_task id (some desc) s = with_pool desc (ops.remove_idle_task id) s

  -- `stop`.
  unfoldable pub stop : Bool → Scheduler P → Scheduler P
  stop force s = record s {
    running = false;
    pools = map (λ (entry : ℕ × P). (entry.0, ops.stop force entry.1)) s.pools;
  }

  -- The first part of `start`, up to the start of the main thread's pool.
  unfoldable pub start : Scheduler P → Scheduler P
  start s = record s {
    started = true;
    pools =
        map
          (λ (entry : ℕ × P).
            if entry.0 == main_thread then entry else (entry.0, ops.start entry.1))
          s.pools;
  }

  abbrev pub described : ℕ → Option (P × Scheduler P) → Option (ℕ × Scheduler P)
  described desc none = none
  described desc (some r) = some (desc, r.1)

  abbrev pub cached_or : Option ℕ → ℕ → Scheduler P → Option (ℕ × Scheduler P)
  cached_or none desc s = described desc (get_pool desc s)
  cached_or (some cached) desc s = some (cached, s)

  -- The pool of a task, from the cache of its reaction or from `get_pool`.
  unfoldable pub resolve_pool : Submission T → Scheduler P → Option (ℕ × Scheduler P)
  resolve_pool t s =
      if t.has_parent
      then cached_or t.cached t.pool_descriptor s
      else described t.pool_descriptor (get_pool t.pool_descriptor s)

  -- Behind the choice of the pool: a task of one group takes its token or is left with the group, and
  -- others take all locks or none. `locked` is whether the locks of the groups were taken.
  unfoldable pub dispatch : Submission T → Bool → Bool → ℕ → Scheduler P → Outcome × Scheduler P
  dispatch t locked idle desc s = elim t.groups [
    | [] ↦ if t.run_inline then (ran, s) else (
      to_pool desc,
      record s { pools = change_pool desc (ops.submit t.payload (not idle)) s.pools },
    )
    | g ∷ gs ↦ elim gs [
      | [] ↦ if t.run_inline && locked then (ran, s) else (to_group g desc, s)
      | h ∷ hs ↦ if t.run_inline && locked then (ran, s) else (
        to_pool desc,
        record s { pools = change_pool desc (ops.submit t.payload (not idle)) s.pools },
      )
    ]
  ]

  -- `submit`.
  unfoldable pub submit : Option (Submission T) → Bool → Bool → Scheduler P → Outcome × Scheduler P
  submit none locked idle s = (ignored, s)
  submit (some t) locked idle s = elim (resolve_pool t s) [
    | none ↦ (terminated, s)
    | some r ↦ dispatch t locked idle r.0 r.1
  ]
