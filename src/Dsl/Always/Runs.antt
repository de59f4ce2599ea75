-- ===== src/Dsl/Always/Runs.antt =====
-- src/dsl/word/Always.hpp: a reaction whose idle task is in a bucket of its own.
use mathlib.Core.Option.{some-injective}
use nuclear.Base.{
  sym, ◌∙◌, subst, ap, ℕ, ◌<◌, ◌≡◌, refl, Bool, true, false, ◌&&◌, List, [], ◌∷◌, some,
  if◌then◌else◌, arith, Bool-cases, inl, inr,
}
use nuclear.Base.Int.{ℤ, pos, ◌-ℤ◌}
use nuclear.Threading.Priority.{priority_index, priority_buckets, priority_index_mono}
use nuclear.Threading.Buckets.{empty_buckets, enqueue, dequeue}
use nuclear.Dsl.Always.{
  Kind, of_reaction, of_idle, Always, bucket, submit, submit_task, bind, unbind, after_run,
  run_next, Step, run, enable, unbound, Reach, here, next,
}
use nuclear.Dsl.Always.Queues.{
  only, both, only_empty, both_empty, enqueue-only, dequeue-only, enqueue-both, enqueue-both_second,
  dequeue-both,
}

-- The idle task of a reaction with this priority has a bucket of its own.
abbrev pub Apart : ℤ → Type 0
Apart p = priority_index p < priority_index (p -ℤ pos 1)

-- The queues with one idle task, and with a task of the reaction or none.
unfoldable pub laid : ℤ → Bool → List (List Kind)
laid p true =
    both priority_buckets (priority_index p) (priority_index (p -ℤ pos 1)) (of_reaction ∷ [])
      (of_idle ∷ [])
laid p false = only priority_buckets (priority_index (p -ℤ pos 1)) (of_idle ∷ [])

abbrev pub state : Bool → ℤ → List (List Kind) → Always
state e p qs = record { enabled = e; priority = p; buckets = qs }

pub in_range : (p : ℤ) → priority_index p < priority_buckets
in_range p = (priority_index_mono p p (omega arith)).1

submit_task-laid :
    (accepts e : Bool) (p : ℤ)
    → Apart p
    → submit_task accepts (state e p (laid p false)) ≡ state e p (laid p (e && accepts))
unfolding submit_task submit bucket laid
submit_task-laid accepts e p h = elim (Bool-cases (e && accepts)) [
  | inl y ↦ rw y (
      ap (state e p) (
        enqueue-both priority_buckets (priority_index p) (priority_index (p -ℤ pos 1)) of_reaction
          (of_idle ∷ []) h))
  | inr n ↦ rw n refl
]

empty-only : (i : ℕ) (a : Kind) → enqueue i a empty_buckets ≡ only priority_buckets i (a ∷ [])
empty-only i a =
    ap (enqueue i a) (sym (only_empty priority_buckets i)) ∙ enqueue-only priority_buckets i a []

-- An idle task that runs, and `bind`, fill the empty queues.
fills :
    (accepts e : Bool) (p : ℤ)
    → Apart p
    → submit of_idle (submit_task accepts (state e p empty_buckets))
      ≡ state e p (laid p (e && accepts))
unfolding submit_task submit bucket laid
fills accepts e p h = elim (Bool-cases (e && accepts)) [
  | inl y ↦ rw y (
      ap (state e p) (
        ap (enqueue (priority_index (p -ℤ pos 1)) of_idle)
          (empty-only (priority_index p) of_reaction)
        ∙ enqueue-both_second priority_buckets (priority_index p) (priority_index (p -ℤ pos 1))
            of_reaction of_idle h))
  | inr n ↦ rw n (ap (state e p) (empty-only (priority_index (p -ℤ pos 1)) of_idle))
]

pub run_next-found :
    (throws accepts : Bool) (s : Always) (kind : Kind) (rest left : List (List Kind))
    → dequeue s.buckets ≡ some (kind, rest)
    → rest ≡ left
    → run_next throws accepts s ≡ some (after_run kind throws accepts (record s { buckets = left }))
unfolding run_next
run_next-found throws accepts s kind rest left e f =
    rw (e, run_next) (ap (λ qs. some (after_run kind throws accepts (record s { buckets = qs }))) f)

run_next-idle :
    (throws accepts e : Bool) (p : ℤ)
    → Apart p
    → run_next throws accepts (state e p (laid p false)) ≡ some (state e p (laid p (e && accepts)))
unfolding laid after_run
run_next-idle throws accepts e p h =
    let j = priority_index (p -ℤ pos 1) in
    run_next-found throws accepts (state e p (laid p false)) of_idle (only priority_buckets j [])
      empty_buckets (dequeue-only priority_buckets j of_idle [] (in_range (p -ℤ pos 1)))
      (only_empty priority_buckets j)
    ∙ ap some (fills accepts e p h)

run_next-task :
    (throws accepts e : Bool) (p : ℤ)
    → Apart p
    → run_next throws accepts (state e p (laid p true))
      ≡ some (if throws then state e p (laid p false) else state e p (laid p (e && accepts)))
unfolding laid after_run
run_next-task throws accepts e p h =
    let i = priority_index p in
    let j = priority_index (p -ℤ pos 1) in
    run_next-found throws accepts (state e p (laid p true)) of_reaction
      (both priority_buckets i j [] (of_idle ∷ [])) (laid p false)
      (dequeue-both priority_buckets i j of_reaction [] (of_idle ∷ []) h (in_range p))
      (both_empty priority_buckets i j (of_idle ∷ []) h)
    ∙ ap (λ s. some (if throws then state e p (laid p false) else s))
        (submit_task-laid accepts e p h)

-- One idle task waits, and at most one task of the reaction.
pub record OneEach (p : ℤ) (s : Always) : Type 0 where
  pub waiting : Bool
  pub is_laid : s ≡ record { enabled = s.enabled; priority = p; buckets = laid p waiting }

state-OneEach : (e : Bool) (p : ℤ) (b : Bool) → OneEach p (state e p (laid p b))
state-OneEach e p b = record { waiting = b; is_laid = refl }

-- What the next run leaves.
runs :
    (throws accepts e : Bool) (p : ℤ) (b : Bool)
    → Apart p
    → (c : Bool) × (run_next throws accepts (state e p (laid p b)) ≡ some (state e p (laid p c)))
runs throws accepts e p false h = (e && accepts, run_next-idle throws accepts e p h)
runs true accepts e p true h = (false, run_next-task true accepts e p h)
runs false accepts e p true h = (e && accepts, run_next-task false accepts e p h)

Step-OneEach : {s t : Always} (p : ℤ) → Apart p → Step s t → OneEach p s → OneEach p t
unfolding unbind
Step-OneEach p h (run throws accepts s t r) o =
    let (c, e) = runs throws accepts s.enabled p o.waiting h in
    subst (OneEach p)
      (some-injective _ t (sym e ∙ sym (ap (run_next throws accepts) o.is_laid) ∙ r))
      (state-OneEach s.enabled p c)
Step-OneEach p h (enable set s) o = record {
  waiting = o.waiting;
  is_laid = ap (λ (x : Always). record x { enabled = set }) o.is_laid;
}
Step-OneEach p h (unbound s) o = record {
  waiting = o.waiting;
  is_laid = ap (λ (x : Always). record x { enabled = false }) o.is_laid;
}

Reach-OneEach_from : {s t : Always} (p : ℤ) → Apart p → OneEach p s → Reach s t → OneEach p t
Reach-OneEach_from p h o here = o
Reach-OneEach_from p h o (next r st) = Step-OneEach p h st (Reach-OneEach_from p h o r)

bind-OneEach : (p : ℤ) (accepts : Bool) → Apart p → OneEach p (bind p accepts)
unfolding bind
bind-OneEach p accepts h =
    subst (OneEach p) (sym (fills accepts true p h)) (state-OneEach true p (true && accepts))

-- Where the idle task has a bucket of its own: whatever the callback throws, whatever the other words
-- refuse, and however the reaction is enabled, disabled and unbound, one idle task and at most one task
-- of the reaction wait between two runs. When none of the reaction waits, the next run leaves one if
-- the reaction is enabled and accepted then, and else it leaves all as it was.
pub Reach-OneEach :
    (p : ℤ) (first : Bool) {s : Always}
    → Apart p
    → Reach (bind p first) s
    → (o : OneEach p s) × (o.waiting ≡ false
        → (throws accepts : Bool)
        → run_next throws accepts s ≡ some (record s { buckets = laid p (s.enabled && accepts) }))
Reach-OneEach p first {s} h r =
    let o = Reach-OneEach_from p h (bind-OneEach p first h) r in
    (
      o,
      λ idle throws accepts.
          let e = o.is_laid ∙ ap (λ b. state s.enabled p (laid p b)) idle in
          ap (run_next throws accepts) e
          ∙ run_next-idle throws accepts s.enabled p h
          ∙ ap (λ (x : Always). some (record x { buckets = laid p (s.enabled && accepts) }))
              (sym e),
    )
