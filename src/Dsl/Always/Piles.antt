-- ===== src/Dsl/Always/Piles.antt =====
-- src/dsl/word/Always.hpp: a reaction whose idle task is in the bucket of its tasks.
use nuclear.Base.{
  sym, ◌∙◌, subst, ap, ℕ, zero, suc, ◌≡◌, refl, true, false, List, [], ◌∷◌, ◌++◌, replicate, some,
  append-nil, append_assoc,
}
use nuclear.Base.Int.{ℤ, pos, ◌-ℤ◌}
use nuclear.Threading.Priority.{priority_index, priority_buckets}
use nuclear.Threading.Buckets.{enqueue}
use nuclear.Dsl.Always.{
  Kind, of_reaction, of_idle, Always, bucket, submit, submit_task, bind, after_run, run_next,
}
use nuclear.Dsl.Always.Queues.{only, only_empty, enqueue-only, dequeue-only}
use nuclear.Dsl.Always.Runs.{state, in_range, run_next-found}

-- The runs of a reaction that stays enabled and does not throw.
pub data Runs (s : Always) : Always → Type 0 where
  begin : Runs s s
  further : {t u : Always} → Runs s t → run_next false true t ≡ some u → Runs s u

abbrev pile : ℤ → List Kind → Always
pile p q = state true p (only priority_buckets (priority_index p) q)

run_next-pile_task :
    (p : ℤ) (q : List Kind)
    → run_next false true (pile p (of_reaction ∷ q)) ≡ some (pile p (q ++ of_reaction ∷ []))
unfolding after_run submit_task submit bucket
run_next-pile_task p q =
    let i = priority_index p in
    run_next-found false true (pile p (of_reaction ∷ q)) of_reaction (only priority_buckets i q)
      (only priority_buckets i q) (dequeue-only priority_buckets i of_reaction q (in_range p)) refl
    ∙ ap (λ qs. some (state true p qs)) (enqueue-only priority_buckets i of_reaction q)

-- An idle task, or `bind`, enters one task of each kind.
enters :
    (p : ℤ) (q : List Kind)
    → priority_index (p -ℤ pos 1) ≡ priority_index p
    → submit of_idle (submit_task true (pile p q))
      ≡ pile p ((q ++ of_reaction ∷ []) ++ of_idle ∷ [])
unfolding submit_task submit bucket
enters p q h =
    let i = priority_index p in
    ap (state true p) (
      ap (λ j. enqueue j of_idle (enqueue i of_reaction (only priority_buckets i q))) h
      ∙ ap (enqueue i of_idle) (enqueue-only priority_buckets i of_reaction q)
      ∙ enqueue-only priority_buckets i of_idle (q ++ of_reaction ∷ []))

run_next-pile_idle :
    (p : ℤ) (q : List Kind)
    → priority_index (p -ℤ pos 1) ≡ priority_index p
    → run_next false true (pile p (of_idle ∷ q))
      ≡ some (pile p ((q ++ of_reaction ∷ []) ++ of_idle ∷ []))
unfolding after_run
run_next-pile_idle p q h =
    let i = priority_index p in
    run_next-found false true (pile p (of_idle ∷ q)) of_idle (only priority_buckets i q)
      (only priority_buckets i q) (dequeue-only priority_buckets i of_idle q (in_range p)) refl
    ∙ ap some (enters p q h)

tasks : ℕ → List Kind
tasks n = replicate n of_reaction

-- A task behind a number of tasks is one more of them.
tasks-snoc : (n : ℕ) (q : List Kind) → (tasks n ++ of_reaction ∷ []) ++ q ≡ tasks (suc n) ++ q
unfolding tasks
tasks-snoc zero q = refl
tasks-snoc (suc n) q = ap (λ r. of_reaction ∷ r) (tasks-snoc n q)

append-step : (q r : List Kind) (a : Kind) → (q ++ a ∷ []) ++ r ≡ q ++ a ∷ r
append-step [] r a = refl
append-step (x ∷ q) r a = ap (λ l. x ∷ l) (append-step q r a)

-- The tasks at the front run and go behind the others.
rotates :
    {s : Always} (p : ℤ) (n : ℕ) (q : List Kind)
    → Runs s (pile p (tasks n ++ q))
    → Runs s (pile p (q ++ tasks n))
unfolding tasks
rotates {s} p zero q r = subst (λ l. Runs s (pile p l)) (sym (append-nil q)) r
rotates {s} p (suc n) q r =
    subst (λ l. Runs s (pile p l)) (append-step q (tasks n) of_reaction)
      (rotates p n (q ++ of_reaction ∷ []) (
        subst (λ l. Runs s (pile p l)) (append_assoc (tasks n) q (of_reaction ∷ []))
          (further r (run_next-pile_task p (tasks n ++ q)))))

bind-pile :
    (p : ℤ)
    → priority_index (p -ℤ pos 1) ≡ priority_index p
    → bind p true ≡ pile p (of_reaction ∷ of_idle ∷ [])
unfolding bind
bind-pile p h =
    ap (λ qs. submit of_idle (submit_task true (state true p qs)))
      (sym (only_empty priority_buckets (priority_index p)))
    ∙ enters p [] h

piles :
    (p : ℤ) (n : ℕ)
    → priority_index (p -ℤ pos 1) ≡ priority_index p
    → Runs (bind p true) (pile p (tasks (suc n) ++ of_idle ∷ []))
unfolding tasks
piles p zero h = subst (Runs (bind p true)) (bind-pile p h) begin
piles p (suc n) h =
    subst (λ l. Runs (bind p true) (pile p l)) (tasks-snoc (suc n) (of_idle ∷ []))
      (further (rotates p (suc n) (of_idle ∷ []) (piles p n h))
        (run_next-pile_idle p (tasks (suc n)) h))

-- Where the idle task is in the bucket of the reaction's tasks, as with the priority IDLE, the tasks pile
-- up: while the reaction runs without an exception, for every number a state comes in which more tasks
-- of it than that wait in its queue, behind them the idle task.
pub bind-piles_up :
    (p : ℤ) (n : ℕ)
    → priority_index (p -ℤ pos 1) ≡ priority_index p
    → (s : Always) × Runs (bind p true) s
      × (s.buckets
          ≡ only priority_buckets
              (priority_index p)
              (replicate (suc n) of_reaction ++ of_idle ∷ []))
unfolding tasks
bind-piles_up p n h = (pile p (tasks (suc n) ++ of_idle ∷ []), piles p n h, refl)
