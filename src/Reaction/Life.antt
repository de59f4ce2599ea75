-- ===== src/Reaction/Life.antt =====
-- src/util/CallbackGenerator.hpp, src/threading/Reaction.cpp and ReactionTask.cpp: the count of active tasks, and
-- what is emitted over the life of a task.
use nuclear.Base.{
  ◌≡◌, refl, ap, ◌∙◌, List, [], Option, none, some, Bool, true, false, if◌then◌else◌,
}
use nuclear.Base.Int.{pos, ◌+ℤ◌, ◌-ℤ◌, eq_of_parts, int_laws}
use nuclear.Trace.State.{created, missing_data, blocked}
use nuclear.Reaction.Tasks.{
  Reaction, ReactionTask, Threads, new_task, delete_task, next_id, sub_active,
}
use nuclear.Reaction.Generator.{Emission, emit_event, Words, generate, get_task}

-- The reaction with one more active task.
abbrev pub busier : Reaction → Reaction
busier r = record r { active_tasks = r.active_tasks +ℤ pos 1 }

delete_busier :
    (w : Threads) (r : Reaction) → w.reaction ≡ some (busier r) → (delete_task w).reaction ≡ some r
unfolding delete_task
delete_busier w r e =
    let back : r.active_tasks +ℤ pos 1 -ℤ pos 1 ≡ r.active_tasks =
      eq_of_parts (r.active_tasks +ℤ pos 1 -ℤ pos 1) r.active_tasks (omega int_laws) in
    ap (sub_active (pos 1)) e ∙ ap (λ n. some (record r { active_tasks = n })) back

-- What `get_task` begins with: the thread's state with the reaction, and the task that is made then.
abbrev pub asked : Reaction → Threads → Threads
asked r w = record w { reaction = some r }

abbrev pub new_task_of : Words → Bool → Reaction → Threads → ReactionTask × Threads
new_task_of dsl inlined r w = new_task dsl.run_inline inlined (asked r w)

-- How a reaction answers when it is asked for a task: it is disabled, it refuses the task, or it makes
-- it. All that changes but the count is what making a task changes.
pub data Answer (dsl : Words) (inlined : Bool) (r : Reaction) (w : Threads)
    : Option ReactionTask × Threads × List Emission → Type 0 where
  disabled : r.enabled ≡ false → Answer dsl inlined r w (none, asked r w, [])
  refused :
      (v : Threads)
      → r.enabled ≡ true
      → v ≡ record ((new_task_of dsl inlined r w).1) { reaction = some r }
      → dsl.precondition (some (busier r)) ≡ false
      → Answer dsl inlined r w (none, v, emit_event blocked (new_task_of dsl inlined r w).0)
  without_data :
      (v : Threads)
      → r.enabled ≡ true
      → v ≡ record ((new_task_of dsl inlined r w).1) { reaction = some r }
      → dsl.precondition (some (busier r)) ≡ true
      → dsl.has_data ≡ false
      → Answer dsl inlined r w (none, v, emit_event missing_data (new_task_of dsl inlined r w).0)
  made :
      (v : Threads)
      → r.enabled ≡ true
      → v ≡ record ((new_task_of dsl inlined r w).1) { reaction = some (busier r) }
      → dsl.precondition (some (busier r)) ≡ true
      → dsl.has_data ≡ true
      → Answer dsl inlined r w (
        some (new_task_of dsl inlined r w).0,
        v,
        emit_event created (new_task_of dsl inlined r w).0,
      )

-- Asked for a task, a reaction that is disabled changes and emits nothing. Else it makes a task, and hands
-- it out and leaves it counted if the precondition holds with this task counted and all data exists;
-- it counts as before if not. It emits one event of the new task, if that has statistics: that it
-- is blocked when the precondition fails, that data is missing when it holds and data do not
-- exist, and that it is created else.
pub get_task-Answer :
    (dsl : Words) (inlined : Bool) (r : Reaction) (w : Threads)
    → Answer dsl inlined r w (get_task dsl inlined r w)
unfolding get_task generate new_task next_id delete_task
get_task-Answer dsl inlined r w = by_enabled r.enabled refl
  where
    task : ReactionTask
    task = (new_task_of dsl inlined r w).0

    after : Threads
    after = (new_task_of dsl inlined r w).1

    given_back : delete_task after ≡ record after { reaction = some r }
    given_back = ap (λ q. record after { reaction = q }) (delete_busier after r refl)

    by_data :
        (b : Bool)
        → r.enabled ≡ true
        → dsl.precondition (some (busier r)) ≡ true
        → dsl.has_data ≡ b
        → Answer dsl inlined r w (
            if b
            then (some task, after, emit_event created task)
            else (none, delete_task after, emit_event missing_data task))
    by_data true e p d = made after e refl p d
    by_data false e p d = without_data (delete_task after) e given_back p d

    by_precondition :
        (b : Bool)
        → r.enabled ≡ true
        → dsl.precondition (some (busier r)) ≡ b
        → Answer dsl inlined r w (
            if b
            then (if dsl.has_data
                then (some task, after, emit_event created task)
                else (none, delete_task after, emit_event missing_data task))
            else (none, delete_task after, emit_event blocked task))
    by_precondition true e p = by_data dsl.has_data e p refl
    by_precondition false e p = refused (delete_task after) e given_back p

    by_enabled :
        (b : Bool)
        → r.enabled ≡ b
        → Answer dsl inlined r w
            (if b then generate dsl inlined (asked r w) else (none, asked r w, []))
    by_enabled true e = by_precondition (dsl.precondition (some (busier r))) e refl
    by_enabled false e = disabled e
