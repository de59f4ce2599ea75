-- ===== src/Reaction/Buffer.antt =====
-- src/dsl/word/Buffer.hpp, with the tasks that threads make and check at the same time. A task counts as
-- active from its constructor to its destructor; its precondition is checked in between.
use nuclear.Base.{ℕ, zero, suc, ◌+◌, ◌≤◌, ◌≡◌, subst, Bool, true, false, arith, Option, none, some}
use nuclear.Base.Int.{pos, ltb_ℤ}
use nuclear.Reaction.Tasks.{Reaction}

-- `precondition`, for the reaction of the task.
unfoldable pub buffer_precondition : ℕ → Option Reaction → Bool
buffer_precondition n none = false
buffer_precondition n (some r) = ltb_ℤ r.active_tasks (pos (n + 1))

-- The precondition of a task that is made when, with it, `a` tasks are active.
unfoldable pub accepts : ℕ → ℕ → Bool
accepts n a =
    buffer_precondition n
      (some (record { id = 1; emit_stats = true; active_tasks = pos a; enabled = true }))

-- `active_tasks`, and the tasks of a reaction that are to be checked, that were accepted, and that were
-- rejected.
pub record Crowd : Type 0 where
  pub active : ℕ
  pub unchecked : ℕ
  pub accepted : ℕ
  pub rejected : ℕ

abbrev pub idle : Crowd
idle = record { active = 0; unchecked = 0; accepted = 0; rejected = 0 }

-- One step of some thread: it makes a task, checks it, or deletes it.
pub data Step (n : ℕ) : Crowd → Crowd → Type 0 where
  make :
      (a u k r : ℕ)
      → Step n
          (record { active = a; unchecked = u; accepted = k; rejected = r })
          (record { active = suc a; unchecked = suc u; accepted = k; rejected = r })
  accept :
      (a u k r : ℕ)
      → accepts n a ≡ true
      → Step n
          (record { active = a; unchecked = suc u; accepted = k; rejected = r })
          (record { active = a; unchecked = u; accepted = suc k; rejected = r })
  reject :
      (a u k r : ℕ)
      → accepts n a ≡ false
      → Step n
          (record { active = a; unchecked = suc u; accepted = k; rejected = r })
          (record { active = a; unchecked = u; accepted = k; rejected = suc r })
  drop :
      (a u k r : ℕ)
      → Step n
          (record { active = suc a; unchecked = u; accepted = k; rejected = suc r })
          (record { active = a; unchecked = u; accepted = k; rejected = r })
  finish :
      (a u k r : ℕ)
      → Step n
          (record { active = suc a; unchecked = u; accepted = suc k; rejected = r })
          (record { active = a; unchecked = u; accepted = k; rejected = r })

pub data Reach (n : ℕ) : Crowd → Crowd → Type 0 where
  start : (c : Crowd) → Reach n c c
  next : (b c d : Crowd) → Reach n b c → Step n c d → Reach n b d

record Counted (n : ℕ) (c : Crowd) : Type 0 where
  sum : c.active ≡ c.unchecked + c.accepted + c.rejected
  few : c.accepted ≤ n

accepts_lem : (n a : ℕ) → accepts n a ≡ true → a ≤ n
unfolding accepts buffer_precondition
accepts_lem n a e = ground (arith, e)

Step-Counted : (n : ℕ) (c d : Crowd) → Step n c d → Counted n c → Counted n d
Step-Counted n _ _ (make a u k r) h = record { sum = omega (arith, h.sum); few = h.few }
Step-Counted n _ _ (accept a u k r e) h = record {
  sum = omega (arith, h.sum);
  few = omega (arith, h.sum, accepts_lem n a e);
}
Step-Counted n _ _ (reject a u k r e) h = record { sum = omega (arith, h.sum); few = h.few }
Step-Counted n _ _ (drop a u k r) h = record { sum = omega (arith, h.sum); few = h.few }
Step-Counted n _ _ (finish a u k r) h = record {
  sum = omega (arith, h.sum);
  few = omega (arith, h.few);
}

Reach-Counted : (n : ℕ) (b c : Crowd) → Reach n b c → Counted n b → Counted n c
Reach-Counted n b _ (start _) h = h
Reach-Counted n b _ (next _ c d r s) h = Step-Counted n c d s (Reach-Counted n b c r h)

-- Whatever the threads do, at most `n` tasks of the reaction are accepted at a time.
pub Reach-accepted : (n : ℕ) (c : Crowd) → Reach n idle c → c.accepted ≤ n
Reach-accepted n c r =
    (Reach-Counted n idle c r (record { sum = omega arith; few = omega arith })).few

refuses : (n : ℕ) → accepts n (suc n) ≡ false
unfolding accepts buffer_precondition
refuses n = ground arith

make_all :
    (n k : ℕ) → Reach n idle (record { active = k; unchecked = k; accepted = 0; rejected = 0 })
make_all n zero = start idle
make_all n (suc k) = next idle _ _ (make_all n k) (make k k 0 0)

reject_all :
    (n u r : ℕ)
    → Reach n idle (record { active = suc n; unchecked = u; accepted = 0; rejected = r })
    → Reach n idle (record { active = suc n; unchecked = 0; accepted = 0; rejected = u + r })
reject_all n zero r reach =
    subst (λ m. Reach n idle (record { active = suc n; unchecked = 0; accepted = 0; rejected = m }))
      (omega arith) reach
reject_all n (suc u) r reach =
    let less : u + suc r ≡ suc u + r = omega arith in
    subst (λ m. Reach n idle (record { active = suc n; unchecked = 0; accepted = 0; rejected = m }))
      less (reject_all n u (suc r) (next idle _ _ reach (reject (suc n) u 0 r (refuses n))))

-- When as many threads as one more than the buffer holds make a task of an idle reaction before any of
-- them checks it, all may be rejected, with none accepted.
pub crowd-Reach :
    (n : ℕ)
    → Reach n idle (record { active = suc n; unchecked = 0; accepted = 0; rejected = suc n })
crowd-Reach n =
    subst (λ m. Reach n idle (record { active = suc n; unchecked = 0; accepted = 0; rejected = m }))
      (omega arith) (reject_all n (suc n) 0 (make_all n (suc n)))
