-- ===== src/Threading/Scheduler/Pools.antt =====
-- src/threading/scheduler/Scheduler.cpp: how pools come to be, what a shutdown does to `submit`, and the count of
-- the idle tasks for all pools.
use nuclear.Base.{
  ℕ, ◌==◌, ◌≡◌, refl, sym, ap, ◌∙◌, List, [], ◌∷◌, Option, none, some, Bool, true, false,
  if◌then◌else◌, map, arith, Bool-cases, inl, inr,
}
use nuclear.Threading.Scheduler.{
  PoolOps, Scheduler, find_pool, Submission, terminated, create_pool, get_pool, resolve_pool,
  submit, stop, described, cached_or,
}

module _ {P T : Type 0} (ops : PoolOps P T) where
  same_desc : (n : ℕ) → (n == n) ≡ true
  same_desc n = ground arith

  -- How `get_pool` answers: with the pool of the descriptor and no change, with a new pool while the
  -- scheduler runs, or with an exception.
  pub data Answer (desc : ℕ) (s : Scheduler P) : Option (P × Scheduler P) → Type 0 where
    known : (p : P) → find_pool desc s.pools ≡ some p → Answer desc s (some (p, s))
    made :
        s.running ≡ true
        → find_pool desc s.pools ≡ none
        → find_pool desc ((desc, create_pool ops desc s) ∷ s.pools) ≡ some (create_pool ops desc s)
        → Answer desc s (
            some (
              create_pool ops desc s,
              record s { pools = (desc, create_pool ops desc s) ∷ s.pools },
            ))
    refused : s.running ≡ false → find_pool desc s.pools ≡ none → Answer desc s none

  -- A descriptor has one pool: `get_pool` finds it, or makes it if the scheduler runs, and then finds it,
  -- or else raises an exception.
  pub get_pool-Answer : (desc : ℕ) (s : Scheduler P) → Answer desc s (get_pool ops desc s)
  unfolding get_pool find_pool
  get_pool-Answer desc s = by_found (find_pool desc s.pools) refl
    where
      by_running :
          (b : Bool)
          → s.running ≡ b
          → find_pool desc s.pools ≡ none
          → Answer desc s (
              if b
              then some (
                create_pool ops desc s,
                record s { pools = (desc, create_pool ops desc s) ∷ s.pools },
              )
              else none)
      by_running true r e = made r e (rw (same_desc desc) refl)
      by_running false r e = refused r e

      by_found :
          (o : Option P)
          → find_pool desc s.pools ≡ o
          → Answer desc s (elim o [
            | some p ↦ some (p, s)
            | none ↦
                if s.running
                then some (
                  create_pool ops desc s,
                  record s { pools = (desc, create_pool ops desc s) ∷ s.pools },
                )
                else none
          ])
      by_found (some p) e = known p e
      by_found none e = by_running s.running refl e

  refused_lem :
      (desc : ℕ) (s : Scheduler P)
      → s.running ≡ false
      → find_pool desc s.pools ≡ none
      → get_pool ops desc s ≡ none
  unfolding get_pool
  refused_lem desc s r e = rw (e, r, get_pool) refl

  find_stopped :
      (desc : ℕ) (force : Bool) (pools : List (ℕ × P))
      → find_pool desc pools ≡ none
      → find_pool desc (map (λ (entry : ℕ × P). (entry.0, ops.stop force entry.1)) pools) ≡ none
  unfolding find_pool
  find_stopped desc force [] e = refl
  find_stopped desc force ((d, p) ∷ rest) e = elim (Bool-cases (d == desc)) [
    | inl c ↦
        let w : (if d == desc then some p else find_pool desc rest) ≡ some p = rw c refl in
        absurd (cc)
    | inr c ↦
        let w : (if d == desc then some p else find_pool desc rest) ≡ find_pool desc rest =
          rw c refl in
        rw c (find_stopped desc force rest (sym w ∙ e))
  ]

  unresolved :
      (t : Submission T) (s : Scheduler P)
      → s.running ≡ false
      → find_pool t.pool_descriptor s.pools ≡ none
      → t.cached ≡ none
      → resolve_pool ops t s ≡ none
  unfolding resolve_pool
  unresolved t s r e c = by_parent t.has_parent
    where
      refusal : described ops t.pool_descriptor (get_pool ops t.pool_descriptor s) ≡ none
      refusal = ap (described ops t.pool_descriptor) (refused_lem t.pool_descriptor s r e)

      by_parent :
          (b : Bool)
          → (if b
              then cached_or ops t.cached t.pool_descriptor s
              else described ops t.pool_descriptor (get_pool ops t.pool_descriptor s))
            ≡ none
      by_parent true = rw c refusal
      by_parent false = refusal

  -- Once the scheduler was stopped, a task whose pool does not exist, and is not cached by its reaction,
  -- ends the program: the exception of `get_pool` leaves `submit`, which is `noexcept`.
  pub submit_terminated :
      (t : Submission T) (s : Scheduler P) (force locked idle : Bool)
      → find_pool t.pool_descriptor s.pools ≡ none
      → t.cached ≡ none
      → (submit ops (some t) locked idle (stop ops force s)).0 ≡ terminated
  unfolding submit stop
  submit_terminated t s force locked idle e c =
      rw
        (
          unresolved t (stop ops force s) refl (find_stopped t.pool_descriptor force s.pools e) c,
          submit,
        )
        refl
