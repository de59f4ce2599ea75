-- ===== src/Reaction/Tests.antt =====
-- Runs of reactions and their tasks.
use nuclear.Base.{◌≤◌, refl, none, true, false}
use nuclear.Base.Int.{pos}
use nuclear.Reaction.Tasks.{Reaction, Threads, neutral}
use nuclear.Reaction.Generator.{Words, get_task}
use nuclear.Reaction.Life.{Answer, get_task-Answer}
use nuclear.Reaction.Buffer.{
  buffer_precondition, accepts, idle, Reach, start, next, make, accept, Reach-accepted, crowd-Reach,
}

abbrev a_reaction : Reaction
a_reaction = record { id = 4; emit_stats = true; active_tasks = pos 0; enabled = true }

abbrev silent_reaction : Reaction
silent_reaction = record { id = 5; emit_stats = false; active_tasks = pos 0; enabled = true }

abbrev single : Words
single = record { run_inline = neutral; precondition = buffer_precondition 1; has_data = true }

abbrev a_thread : Threads
a_thread = record { id_source = 9; current_task = none; reaction = none }

get_task-Answer_example :
    Answer single true a_reaction a_thread (get_task single true a_reaction a_thread)
get_task-Answer_example = get_task-Answer single true a_reaction a_thread

one_accepted : Reach 1 idle (record { active = 1; unchecked = 0; accepted = 1; rejected = 0 })
unfolding accepts buffer_precondition
one_accepted = next idle _ _ (next idle _ _ (start idle) (make 0 0 0 0)) (accept 1 0 0 0 refl)

Reach-accepted_example : 1 ≤ 1
Reach-accepted_example = Reach-accepted 1 _ one_accepted

crowd-Reach_example :
    Reach 1 idle (record { active = 2; unchecked = 0; accepted = 0; rejected = 2 })
crowd-Reach_example = crowd-Reach 1
