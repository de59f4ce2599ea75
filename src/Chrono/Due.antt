-- ===== src/Chrono/Due.antt =====
-- src/extension/ChronoController.cpp: which task a turn calls, and that due tasks are called.
use nuclear.Base.{
  ℕ, zero, suc, ◌≡◌, refl, sym, subst, ap, ◌∙◌, List, [], ◌∷◌, arith, Bool, true, false, not, ◌&&◌,
  Bool-cases, inl, inr, ◌⊎◌, ◌+◌, if◌then◌else◌,
}
use nuclear.Base.Int.{ℤ, ltb_ℤ, ◌≤ℤ◌}
use nuclear.Chrono.Tasks.{
  ChronoTask, call, make_heap, pop_heap, NoneBefore, FrontFirst, FrontFirst-make_heap, count,
  count-make_heap, pop_back-snoc,
}
use nuclear.Chrono.Handlers.{Controller}
use nuclear.Chrono.Turn.{Turn, Readings, called, idle, is_due, call_front, turn_at, turn}

-- A turn that calls the first of the tasks, at a time that has come.
pub record CallsFirst (r : Readings) (c : Controller) (t : ChronoTask) : Type 0 where
  pub calls : (turn r c).0 ≡ called t
  pub due : t.time ≤ℤ r.start
  pub first : NoneBefore t.time c.tasks

none_due :
    (start time : ℤ) (xs : List ChronoTask)
    → ltb_ℤ start time ≡ true
    → NoneBefore time xs
    → count (is_due start) xs ≡ 0
unfolding count is_due
none_due start time [] e n = refl
none_due start time (x ∷ xs) e n =
    let later : ltb_ℤ start x.time ≡ true = ground (arith, n.0) in
    rw later (omega (arith, none_due start time xs e n.1))

task_cases :
    (xs : List ChronoTask) → (xs ≡ []) ⊎ ((t : ChronoTask) × (ts : List ChronoTask) × (xs ≡ t ∷ ts))
task_cases [] = inl refl
task_cases (t ∷ ts) = inr (t, ts, refl)

turn_idle : (r : Readings) (c : Controller) → c.running ≡ true → c.tasks ≡ [] → turn r c ≡ (idle, c)
unfolding turn turn_at
turn_idle r c live e = rw (live, e) refl

turn_due :
    (r : Readings) (c : Controller) (t : ChronoTask) (ts : List ChronoTask)
    → c.running ≡ true
    → c.tasks ≡ t ∷ ts
    → is_due r.start t ≡ true
    → turn r c ≡ (called t, call_front t ts c)
unfolding turn turn_at
turn_due r c t ts live e d = rw (live, e, d) refl

turn_early :
    (r : Readings) (c : Controller) (t : ChronoTask) (ts : List ChronoTask)
    → c.running ≡ true
    → c.tasks ≡ t ∷ ts
    → is_due r.start t ≡ false
    → (turn r c).1 ≡ c
unfolding turn turn_at
turn_early r c t ts live e d = rw (live, e, d) refl

due_lem : (start : ℤ) (t : ChronoTask) → is_due start t ≡ true → t.time ≤ℤ start
unfolding is_due
due_lem start t d = ground (arith, d)

early_lem : (start : ℤ) (t : ChronoTask) → is_due start t ≡ false → ltb_ℤ start t.time ≡ true
unfolding is_due
early_lem start t d = ground (arith, d)

none_due-early :
    (start : ℤ) (t : ChronoTask) (ts : List ChronoTask)
    → is_due start t ≡ false
    → FrontFirst (t ∷ ts)
    → count (is_due start) (t ∷ ts) ≡ 0
none_due-early start t ts d f =
    none_due start t.time (t ∷ ts) (early_lem start t d) (omega arith, f)

-- A running controller either calls a task that is due and that none is sooner than, or no task is due,
-- and the turn leaves the state as it is.
pub turn_lem :
    (r : Readings) (c : Controller)
    → c.running ≡ true
    → FrontFirst c.tasks
    → ((t : ChronoTask) × CallsFirst r c t)
      ⊎ ((count (is_due r.start) c.tasks ≡ 0) × ((turn r c).1 ≡ c))
unfolding count
turn_lem r c live f = elim (task_cases c.tasks) [
  | inl e ↦ inr (rw e refl, ap (λ x. x.1) (turn_idle r c live e))
  | inr (t, ts, e) ↦ elim (Bool-cases (is_due r.start t)) [
    | inl d ↦ inl (
      t,
      record {
        calls = ap (λ x. x.0) (turn_due r c t ts live e d);
        due = due_lem r.start t d;
        first = subst (NoneBefore t.time) (sym e) (omega arith, subst FrontFirst e f);
      },
    )
    | inr d ↦ inr (
      subst (λ xs. count (is_due r.start) xs ≡ 0) (sym e)
          (none_due-early r.start t ts d (subst FrontFirst e f)),
      turn_early r c t ts live e d,
    )
  ]
]

none_counted :
    (d p : ChronoTask → Bool) (xs : List ChronoTask)
    → count d xs ≡ 0
    → count (λ t. d t && p t) xs ≡ 0
unfolding count
none_counted d p [] e = refl
none_counted d p (x ∷ xs) e = ground (arith, none_counted d p xs)

unfoldable pub renews : ChronoTask → Bool
renews t = (call t).0

-- The turns of the loop, while the clock reads the same: what each does, and the state in the end.
unfoldable pub turns : ℕ → Readings → Controller → List Turn × Controller
turns zero r c = ([], c)
turns (suc n) r c = let (done, end) = turns n r (turn r c).1 in ((turn r c).0 ∷ done, end)

-- The tasks that are called.
unfoldable pub called_tasks : List Turn → List ChronoTask
called_tasks [] = []
called_tasks (called t ∷ ts) = t ∷ called_tasks ts
called_tasks (_ ∷ ts) = called_tasks ts

call_front-once :
    (t : ChronoTask) (ts : List ChronoTask) (c : Controller)
    → renews t ≡ false
    → call_front t ts c ≡ record c { tasks = make_heap ts }
unfolding call_front renews pop_heap
call_front-once t ts c e = rw (e, pop_back-snoc (make_heap ts) (call t).1) refl

-- One turn, when some task is due and none wants to be renewed: it takes out one task, which is due, and calls it.
takes_one :
    (n : ℕ) (r : Readings) (c : Controller)
    → c.running ≡ true
    → FrontFirst c.tasks
    → count renews c.tasks ≡ 0
    → count (is_due r.start) c.tasks ≡ suc n
    → (t : ChronoTask) × (ts : List ChronoTask) × (c.tasks ≡ t ∷ ts)
      × (is_due r.start t ≡ true)
      × (turn r c ≡ (called t, record c { tasks = make_heap ts }))
unfolding count
takes_one n r c live f once e = elim (task_cases c.tasks) [
  | inl z ↦ absurd (omega (arith, sym e ∙ ap (count (is_due r.start)) z))
  | inr (t, ts, split) ↦ elim (Bool-cases (is_due r.start t)) [
    | inl d ↦
        let once_here : count renews (t ∷ ts) ≡ 0 = subst (λ xs. count renews xs ≡ 0) split once in
        (
          t,
          ts,
          split,
          d,
          turn_due r c t ts live split d
              ∙ ap (λ x. (called t, x)) (call_front-once t ts c (ground (arith, once_here))),
        )
    | inr d ↦
        let none : count (is_due r.start) (t ∷ ts) ≡ 0 =
          none_due-early r.start t ts d (subst FrontFirst split f) in
        absurd (omega (arith, none, sym e ∙ ap (count (is_due r.start)) split))
  ]
]

-- While the clock reads the same and no task wants to be renewed, as many turns as tasks are due call just
-- the due tasks, each of them once, and keep the others: with any test `p`, as many called tasks pass
-- it as due ones did, and as many kept tasks as others did, and none is due any more.
pub turns_lem :
    (n : ℕ) (r : Readings) (c : Controller) (p : ChronoTask → Bool)
    → c.running ≡ true
    → FrontFirst c.tasks
    → count renews c.tasks ≡ 0
    → count (is_due r.start) c.tasks ≡ n
    → (count p (called_tasks (turns n r c).0) ≡ count (λ t. is_due r.start t && p t) c.tasks)
      × (count (is_due r.start) (turns n r c).1.tasks ≡ 0)
      × (count (λ t. not (is_due r.start t) && p t) (turns n r c).1.tasks
          ≡ count (λ t. not (is_due r.start t) && p t) c.tasks)
unfolding turns count called_tasks
turns_lem zero r c p live f once e = (sym (none_counted (is_due r.start) p c.tasks e), e, refl)
turns_lem (suc n) r c p live f once e =
    let (t, ts, split, d, next) = takes_one n r c live f once e in
    let once_all : count renews (t ∷ ts) ≡ 0 = subst (λ xs. count renews xs ≡ 0) split once in
    let due_all : count (is_due r.start) (t ∷ ts) ≡ suc n =
      subst (λ xs. count (is_due r.start) xs ≡ suc n) split e in
    let q : ChronoTask → Bool = λ x. not (is_due r.start x) && p x in
    let due : ChronoTask → Bool = λ x. is_due r.start x && p x in
    let not_here : q t ≡ false = rw d refl in
    let here : due t ≡ p t = rw d refl in
    let after : Controller = record c { tasks = make_heap ts } in
    let (all, gone, kept) =
      turns_lem n r after p live (FrontFirst-make_heap ts)
        (count-make_heap renews ts ∙ ground (arith, once_all))
        (count-make_heap (is_due r.start) ts ∙ ground (arith, due_all, d)) in
    subst
      (λ (x : Turn × Controller).
        (count p (called_tasks (x.0 ∷ (turns n r x.1).0)) ≡ count due c.tasks)
        × (count (is_due r.start) (turns n r x.1).1.tasks ≡ 0)
        × (count q (turns n r x.1).1.tasks ≡ count q c.tasks))
      (sym next)
      (
        ap (λ k. (if p t then 1 else 0) + k) (all ∙ count-make_heap due ts)
            ∙ sym (ap (count due) split ∙ rw here refl),
        gone,
        kept ∙ count-make_heap q ts ∙ sym (ap (count q) split ∙ rw not_here (omega arith)),
      )
