-- ===== src/Threading/Scheduler/Counts.antt =====
-- src/threading/scheduler/Scheduler.cpp: the count of the idle tasks for all pools.
use nuclear.Base.{
  ℕ, ◌≤◌, ◌==◌, ◌≡◌, refl, subst, List, [], ◌∷◌, Option, none, some, Bool, true, false, length,
  length-append, arith, Bool-cases, Option-cases, inl, inr, if◌then◌else◌, ◌&&◌, not,
}
use mathlib.Core.Option.{some-injective}
use nuclear.Threading.Scheduler.{
  PoolOps, Scheduler, main_thread, change_pool, remove_id, get_pool, with_pool, change_found,
  add_idle_task, remove_idle_task, stop, start, Submission, Outcome, ran, to_pool, to_group, submit,
  resolve_pool, dispatch, described,
}
use nuclear.Threading.Scheduler.Pools.{Answer, known, made, refused, get_pool-Answer}

module _ {P T : Type 0} (ops : PoolOps P T) where
  -- A call of the scheduler that returns.
  pub data Step (s : Scheduler P) : Scheduler P → Type 0 where
    gets : (desc : ℕ) (p : P) (r : Scheduler P) → get_pool ops desc s ≡ some (p, r) → Step s r
    adds :
        (id : ℕ) (desc : Option ℕ) (r : Scheduler P)
        → add_idle_task ops id desc s ≡ some r
        → Step s r
    removes :
        (id : ℕ) (desc : Option ℕ) (r : Scheduler P)
        → remove_idle_task ops id desc s ≡ some r
        → Step s r
    submits :
        (t : Option (Submission T)) (locked idle : Bool) → Step s (submit ops t locked idle s).1
    starts : Step s (start ops s)
    stops : (force : Bool) → Step s (stop ops force s)

  pub data Reach : Scheduler P → Type 0 where
    initial :
        (pools : List (ℕ × P))
        → Reach (record {
          running = true;
          started = false;
          pools = pools;
          idle_tasks = [];
          global_idle_count = 0;
        })
    later : (s r : Scheduler P) → Reach s → Step s r → Reach r

  unfoldable Counted : Scheduler P → Type 0
  Counted s = s.global_idle_count ≡ length s.idle_tasks

  length-remove_id : (id : ℕ) (xs : List ℕ) → length (remove_id id xs) ≤ length xs
  unfolding remove_id
  length-remove_id id [] = omega arith
  length-remove_id id (x ∷ xs) = elim (Bool-cases (x == id)) [
    | inl e ↦ rw e (omega (arith, length-remove_id id xs))
    | inr e ↦ rw e (omega (arith, length-remove_id id xs))
  ]

  -- `get_pool` leaves the idle tasks alone.
  get_pool-Counted :
      (desc : ℕ) (s : Scheduler P) (p : P) (r : Scheduler P)
      → get_pool ops desc s ≡ some (p, r)
      → Counted s
      → Counted r
  unfolding Counted
  get_pool-Counted desc s p r e h = by_answer (get_pool ops desc s) (get_pool-Answer ops desc s) e
    where
      by_answer :
          (o : Option (P × Scheduler P))
          → Answer ops desc s o
          → o ≡ some (p, r)
          → r.global_idle_count ≡ length r.idle_tasks
      by_answer _ (known q k) w =
          subst (λ (x : P × Scheduler P). x.1.global_idle_count ≡ length x.1.idle_tasks)
            (some-injective _ _ w) h
      by_answer _ (made a b c) w =
          subst (λ (x : P × Scheduler P). x.1.global_idle_count ≡ length x.1.idle_tasks)
            (some-injective _ _ w) h
      by_answer _ (refused a b) w = absurd (cc)

  with_pool-Counted :
      (desc : ℕ) (f : P → P) (s r : Scheduler P)
      → with_pool ops desc f s ≡ some r
      → Counted s
      → Counted r
  unfolding with_pool Counted
  with_pool-Counted desc f s r e h = by_found (get_pool ops desc s) refl e
    where
      by_found :
          (o : Option (P × Scheduler P))
          → get_pool ops desc s ≡ o
          → change_found ops desc f o ≡ some r
          → Counted r
      by_found none g w = absurd (cc)
      by_found (some (p, m)) g w =
          subst Counted (some-injective (record m { pools = change_pool desc f m.pools }) r w)
            (changed m (get_pool-Counted desc s p m g h))
        where
          changed :
              (m : Scheduler P)
              → Counted m
              → Counted (record m { pools = change_pool desc f m.pools })
          changed m k = k

  described-Counted :
      (desc : ℕ) (s : Scheduler P) (d : ℕ) (r : Scheduler P)
      → described ops desc (get_pool ops desc s) ≡ some (d, r)
      → Counted s
      → Counted r
  described-Counted desc s d r e h = by_found (get_pool ops desc s) refl e
    where
      by_found :
          (o : Option (P × Scheduler P))
          → get_pool ops desc s ≡ o
          → described ops desc o ≡ some (d, r)
          → Counted r
      by_found none g w = absurd (cc)
      by_found (some (p, m)) g w =
          subst (λ (x : ℕ × Scheduler P). Counted x.1) (some-injective (desc, m) (d, r) w)
            (get_pool-Counted desc s p m g h)

  resolve_pool-Counted :
      (t : Submission T) (s : Scheduler P) (d : ℕ) (r : Scheduler P)
      → resolve_pool ops t s ≡ some (d, r)
      → Counted s
      → Counted r
  unfolding resolve_pool
  resolve_pool-Counted t s d r e h = elim (Bool-cases t.has_parent) [
    | inr n ↦ described-Counted t.pool_descriptor s d r (rw (n, resolve_pool) at e) h
    | inl y ↦ elim (Option-cases t.cached) [
      | inl z ↦ described-Counted t.pool_descriptor s d r (rw (y, z, resolve_pool) at e) h
      | inr (cached, z) ↦
          subst (λ (x : ℕ × Scheduler P). Counted x.1)
            (some-injective (cached, s) (d, r) (rw (y, z, resolve_pool) at e)) h
    ]
  ]

  dispatch-Counted :
      (t : Submission T) (locked idle : Bool) (desc : ℕ) (s : Scheduler P)
      → Counted s
      → Counted (dispatch ops t locked idle desc s).1
  unfolding Counted dispatch
  dispatch-Counted t locked idle desc s h = by_groups t.groups refl
    where
      put :
          (b : Bool) (x y : Outcome)
          → Counted
              (if◌then◌else◌ {A = Outcome × Scheduler P} b
                (x, s)
                (
                  y,
                  record s { pools = change_pool desc (ops.submit t.payload (not idle)) s.pools },
                )).1
      put true x y = h
      put false x y = h

      parked :
          (b : Bool) (x y : Outcome)
          → Counted (if◌then◌else◌ {A = Outcome × Scheduler P} b (x, s) (y, s)).1
      parked true x y = h
      parked false x y = h

      by_groups : (gs : List ℕ) → t.groups ≡ gs → Counted (dispatch ops t locked idle desc s).1
      by_groups [] e = rw (e, dispatch) (put t.run_inline ran (to_pool desc))
      by_groups (g ∷ []) e =
          rw (e, dispatch) (parked (t.run_inline && locked) ran (to_group g desc))
      by_groups (g ∷ k ∷ ks) e = rw (e, dispatch) (put (t.run_inline && locked) ran (to_pool desc))

  submit-Counted :
      (t : Option (Submission T)) (locked idle : Bool) (s : Scheduler P)
      → Counted s
      → Counted (submit ops t locked idle s).1
  unfolding submit
  submit-Counted none locked idle s h = h
  submit-Counted (some t) locked idle s h = elim (Option-cases (resolve_pool ops t s)) [
    | inl e ↦ rw (e, submit) h
    | inr ((d, r), e) ↦
        rw (e, submit) (dispatch-Counted t locked idle d r (resolve_pool-Counted t s d r e h))
  ]

  Step-Counted : (s r : Scheduler P) → Step s r → Counted s → Counted r
  unfolding Counted add_idle_task remove_idle_task start stop
  Step-Counted s r (gets desc p _ e) h = get_pool-Counted desc s p r e h
  Step-Counted s r (adds id none _ e) h =
      with_pool-Counted main_thread (ops.notify true) _ r e
        (omega (arith, h, length-append s.idle_tasks (id ∷ [])))
  Step-Counted s r (adds id (some desc) _ e) h =
      with_pool-Counted desc (ops.add_idle_task id) s r e h
  Step-Counted s r (removes id none _ e) h =
      subst Counted (some-injective _ _ e) (omega (arith, h, length-remove_id id s.idle_tasks))
  Step-Counted s r (removes id (some desc) _ e) h =
      with_pool-Counted desc (ops.remove_idle_task id) s r e h
  Step-Counted s _ (submits t locked idle) h = submit-Counted t locked idle s h
  Step-Counted s _ starts h = h
  Step-Counted s _ (stops force) h = h

  -- After any calls that returned, the count of idle tasks for all pools is the number of these tasks.
  pub global_idle_count-Reach :
      (s : Scheduler P) → Reach s → s.global_idle_count ≡ length s.idle_tasks
  unfolding Counted
  global_idle_count-Reach _ (initial pools) = refl
  global_idle_count-Reach r (later s _ reach step) =
      Step-Counted s r step (global_idle_count-Reach s reach)
