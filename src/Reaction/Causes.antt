-- ===== src/Reaction/Causes.antt =====
-- src/threading/ReactionTask.cpp: which tasks of a chain of causes have statistics.
use nuclear.Base.{
  ℕ, ◌≡◌, refl, ap, ◌∙◌, List, [], ◌∷◌, Option, some, Bool, true, false, ◌||◌, Bool-cases, inl, inr,
}
use nuclear.Reaction.Tasks.{
  Reaction, neutral, ReactionTask, Threads, new_task, next_id, make_statistics, parent_silent,
  cause_silent, is_none,
}

-- The last task of a chain, each of which is made for a reaction while the one before it runs.
unfoldable pub last_task : List (Option Reaction) → Threads → Option ReactionTask
last_task [] w = w.current_task
last_task (parent ∷ parents) w =
    let (task, after) = new_task neutral false (record w { reaction = parent }) in
    last_task parents (record after { current_task = some task })

unfoldable pub any_silent : List (Option Reaction) → Bool
any_silent [] = false
any_silent (parent ∷ parents) = parent_silent parent || any_silent parents

silent_lem :
    (parent : Option Reaction) (id : ℕ) (current : Option ReactionTask)
    → is_none (make_statistics parent id current) ≡ (parent_silent parent || cause_silent current)
unfolding make_statistics is_none
silent_lem parent id current = elim (Bool-cases (parent_silent parent || cause_silent current)) [
  | inl e ↦ rw e refl
  | inr e ↦ rw e refl
]

swap : (a b c : Bool) → (a || b) || c ≡ b || (a || c)
swap true true c = refl
swap true false c = refl
swap false true c = refl
swap false false c = refl

or_false : (b : Bool) → b ≡ (b || false)
or_false true = refl
or_false false = refl

-- The last task of a chain of causes has no statistics just when the first one has none or some
-- reaction in the chain does not emit any: a reaction that is silent stays so through all that it causes.
pub last_task_silent :
    (parents : List (Option Reaction)) (w : Threads)
    → cause_silent (last_task parents w) ≡ (cause_silent w.current_task || any_silent parents)
unfolding last_task any_silent new_task next_id cause_silent
last_task_silent [] w = or_false (cause_silent w.current_task)
last_task_silent (parent ∷ parents) w =
    last_task_silent parents _
    ∙ ap (λ b. b || any_silent parents) (silent_lem parent w.id_source w.current_task)
    ∙ swap (parent_silent parent) (cause_silent w.current_task) (any_silent parents)
