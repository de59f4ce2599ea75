-- ===== src/Threading/Group/Phantom.antt =====
-- `park_reconcile` of src/threading/scheduler/Group.cpp, where a drain has claimed the waiter before it.
use nuclear.Base.{ℕ, suc, ◌≡◌, refl, true, false, List, some, arith}
use nuclear.Base.Int.{pos, ltb_ℤ, ◌+ℤ◌, ◌-ℤ◌, +ℤ_parts, -ℤ_parts, eq_of_parts}
use nuclear.Threading.Buckets.{dequeue}
use nuclear.Threading.Group.{
  Group, WaitEntry, drain_one_to_pool, drain_and_pay, release_token, park_reconcile,
}

-- When a drain has already claimed the slot, the tokens are negative and the next waiter to drain is
-- counted, `park_reconcile` starts that waiter although no token became free: one task more runs,
-- and the tokens are what they were.
pub park_reconcile_phantom :
    (slot : ℕ) (g : Group) (e : WaitEntry) (rest : List (List WaitEntry))
    → g.slots slot ≡ true
    → ltb_ℤ g.tokens (pos 0) ≡ true
    → dequeue g.wait_buckets ≡ some (e, rest)
    → g.slots e.slot ≡ true
    → ((park_reconcile slot g).running ≡ suc g.running)
      × ((park_reconcile slot g).tokens ≡ g.tokens)
unfolding park_reconcile release_token drain_and_pay drain_one_to_pool
park_reconcile_phantom slot g e rest claimed negative p counted =
    rw
      (
        none_free, claimed, still_negative, p, counted, park_reconcile, release_token,
        drain_and_pay, drain_one_to_pool,
      )
      (refl, same)
  where
    none_free : ltb_ℤ (pos 0) g.tokens ≡ false
    none_free = ground arith

    still_negative : ltb_ℤ (g.tokens -ℤ pos 1) (pos 0) ≡ true
    still_negative = ground (arith, -ℤ_parts g.tokens (pos 1))

    same : (g.tokens -ℤ pos 1) +ℤ pos 1 ≡ g.tokens
    same =
        eq_of_parts _ _
          (omega (arith, -ℤ_parts g.tokens (pos 1), +ℤ_parts (g.tokens -ℤ pos 1) (pos 1)))
