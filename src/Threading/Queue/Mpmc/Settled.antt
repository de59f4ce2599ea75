-- ===== src/Threading/Queue/Mpmc/Settled.antt =====
-- src/threading/scheduler/queue/TaskQueue.hpp: what holds between two calls, and what reclaiming
-- a block keeps.
use nuclear.Base.{
  ◌≡◌, refl, sym, ◌∙◌, List, [], ◌∷◌, ◌++◌, some, ltb, ◌==◌, drop, arith, Bool, true, false,
  Bool-cases, inl, inr, if◌then◌else◌, subst,
}
use mathlib.Core.Option.{some-injective}
use nuclear.Threading.Queue.Blocks.{
  block_size, new_block, overflow, Block, Chain, enqueue_loop, enqueue_fuel, link_next_block,
  commit, remaining, remaining_all, contents, drop_end, Valid, enqueue_loop_lem,
}
use nuclear.Threading.Queue.Mpmc.{try_reclaim_block}

module _ {A : Type 0} where
  -- Between calls every slot that was read is consumed.
  abbrev Finished : List (Block A) → Type 0
  Finished [] = Unit {0}
  Finished (b ∷ bs) = (b.consumed ≡ b.read) × Finished bs

  pub record Settled (q : Chain A) : Type 0 where
    pub valid : Valid q
    pub front_finished : Finished q.front
    pub tail_finished : q.tail.consumed ≡ q.tail.read

  Finished-snoc :
      (bs : List (Block A)) (b : Block A)
      → Finished bs
      → b.consumed ≡ b.read
      → Finished (bs ++ b ∷ [])
  Finished-snoc [] b all f = (f, tt)
  Finished-snoc (x ∷ bs) b all f = (all.0, Finished-snoc bs b all.1 f)

  enqueue-Finished :
      (a : A) (q r : Chain A)
      → Finished q.front
      → q.tail.consumed ≡ q.tail.read
      → enqueue_loop enqueue_fuel a q ≡ some r
      → Finished r.front × (r.tail.consumed ≡ r.tail.read)
  unfolding enqueue_loop link_next_block
  enqueue-Finished a q r f t e = elim (Bool-cases (ltb q.tail.write block_size)) [
    | inl c ↦
        let w : enqueue_loop enqueue_fuel a q ≡ some (record q { tail = commit a q.tail }) =
          rw (c, enqueue_loop) refl in
        subst (λ x. Finished x.front × (x.tail.consumed ≡ x.tail.read))
          (some-injective _ _ (sym w ∙ e)) (f, t)
    | inr c ↦
        let w : enqueue_loop enqueue_fuel a q
            ≡ some (record (link_next_block q) { tail = commit a new_block }) =
          rw (c, enqueue_loop) refl in
        subst (λ x. Finished x.front × (x.tail.consumed ≡ x.tail.read))
          (some-injective _ _ (sym w ∙ e)) (Finished-snoc q.front (overflow q.tail) f t, refl)
  ]

  pub enqueue_settled :
      (a : A) (q : Chain A)
      → Settled q
      → (r : Chain A) × (enqueue_loop enqueue_fuel a q ≡ some r)
        × Settled r
        × (contents r ≡ contents q ++ a ∷ [])
  enqueue_settled a q s =
      let (r, e, v, c) = enqueue_loop_lem a q s.valid in
      let (f, t) = enqueue-Finished a q r s.front_finished s.tail_finished e in
      (r, e, record { valid = v; front_finished = f; tail_finished = t }, c)

  -- Reclaiming the head changes neither what is held nor the validity.
  try_reclaim_block_lem :
      (q : Chain A)
      → Settled q
      → Settled (try_reclaim_block q) × (contents (try_reclaim_block q) ≡ contents q)
  unfolding try_reclaim_block contents remaining_all remaining
  try_reclaim_block_lem q s = reclaim q.front q.tail q.graveyard s
    where
      reclaim :
          (front : List (Block A)) (tail : Block A) (graveyard : List (Block A))
          → Settled (record { front = front; tail = tail; graveyard = graveyard })
          → Settled
              (try_reclaim_block (record { front = front; tail = tail; graveyard = graveyard }))
            × (contents
                  (try_reclaim_block (record { front = front; tail = tail; graveyard = graveyard }))
                ≡ contents (record { front = front; tail = tail; graveyard = graveyard }))
      reclaim [] tail graveyard s = (s, refl)
      reclaim (b ∷ bs) tail graveyard s = elim (Bool-cases (b.consumed == block_size)) [
        | inl c ↦
            let gone : drop b.read b.slots ≡ [] =
              drop_end b.read b.slots (ground (arith, s.valid.full.0.filled, s.front_finished.0)) in
            rw (c, try_reclaim_block)
              (
                record {
                  valid = record {
                    full = s.valid.full.1;
                    writable = s.valid.writable;
                    drained = (gone, s.valid.drained);
                  };
                  front_finished = s.front_finished.1;
                  tail_finished = s.tail_finished;
                },
                rw (gone, contents, remaining_all, remaining) refl,
              )
        | inr c ↦ rw (c, try_reclaim_block) (s, refl)
      ]

  -- Reading a slot ends with a reclaim or without one.
  pub settle :
      (full : Bool) (q : Chain A)
      → Settled q
      → (r : Chain A) × ((if full then try_reclaim_block q else q) ≡ r)
        × Settled r
        × (contents r ≡ contents q)
  settle true q s =
      (try_reclaim_block q, refl, (try_reclaim_block_lem q s).0, (try_reclaim_block_lem q s).1)
  settle false q s = (q, refl, s, refl)
