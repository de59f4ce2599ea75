-- ===== src/Chrono/Accuracy.antt =====
-- src/extension/ChronoController.cpp: the estimates of how late a wait ends, and `unbind`.
use nuclear.Base.{
  ℕ, zero, suc, ◌+◌, ◌≤◌, ◌≡◌, refl, sym, ap, ◌∙◌, List, [], ◌∷◌, none, some, arith, Bool, true,
  false, ◌==◌, if◌then◌else◌, Bool-cases, inl, inr, ◌⊎◌,
}
use nuclear.Base.Int.{ℤ, pos, negsuc, ltb_ℤ, ◌≤ℤ◌}
use nuclear.Chrono.Tasks.{ChronoTask, count, count-make_heap}
use nuclear.Chrono.Handlers.{Controller, erase_task, unbind_task}
use nuclear.Chrono.Turn.{blend, update_accuracy}

blend_lem : (a e : ℕ) → e ≤ a → (pos 0 ≤ℤ blend (pos a) (pos e)) × (blend (pos a) (pos e) ≤ℤ pos a)
blend_lem a e h = (ground arith, ground arith)

-- An estimate that is not negative stays so; it grows only to the error of a wait that ended later than
-- it allowed for, and an error that is larger becomes the estimate.
pub update_accuracy_bounds :
    (accuracy error : ℤ)
    → pos 0 ≤ℤ accuracy
    → (pos 0 ≤ℤ update_accuracy accuracy error)
      × ((update_accuracy accuracy error ≤ℤ accuracy) ⊎ (update_accuracy accuracy error ≡ error))
      × (error ≤ℤ accuracy ⊎ (update_accuracy accuracy error ≡ error))
unfolding update_accuracy
update_accuracy_bounds (negsuc a) error h = absurd (omega arith)
update_accuracy_bounds (pos a) (negsuc e) h =
    let early : ltb_ℤ (pos 0) (negsuc e) ≡ false = ground arith in
    rw (early, update_accuracy) (omega arith, inl (omega arith), inl (omega arith))
update_accuracy_bounds (pos a) (pos zero) h = (omega arith, inl (omega arith), inl (omega arith))
update_accuracy_bounds (pos a) (pos (suc e)) h =
    let late : ltb_ℤ (pos 0) (pos (suc e)) ≡ true = ground arith in
    elim (Bool-cases (ltb_ℤ (pos a) (pos (suc e)))) [
      | inl c ↦ rw (late, c, update_accuracy) (omega arith, inr refl, inr refl)
      | inr c ↦
          let (low, high) = blend_lem a (suc e) (ground (arith, c)) in
          rw (late, c, update_accuracy) (low, inl high, inl (ground (arith, c)))
    ]

-- Whether a task has the id.
unfoldable pub has_id : ℕ → ChronoTask → Bool
has_id id t = t.id == id

count-erase :
    (id : ℕ) (p : ChronoTask → Bool) (xs : List ChronoTask)
    → ((erase_task id xs ≡ none) × (count (has_id id) xs ≡ 0))
      ⊎ ((t : ChronoTask) × (rest : List ChronoTask) × (erase_task id xs ≡ some rest)
          × (t.id ≡ id)
          × (count p xs ≡ (if p t then 1 else 0) + count p rest))
unfolding erase_task count has_id
count-erase id p [] = inl (refl, refl)
count-erase id p (x ∷ xs) = elim (Bool-cases (x.id == id)) [
  | inl e ↦ inr (x, xs, rw e refl, ground (arith, e), refl)
  | inr e ↦ elim (count-erase id p xs) [
    | inl (n, z) ↦ inl (rw (e, n) refl, rw e (omega (arith, z)))
    | inr (t, rest, n, same, c) ↦ inr (t, x ∷ rest, rw (e, n) refl, same, omega (arith, c))
  ]
]

-- To unbind an id removes nothing when no task has it, and else removes one task, which has it: with
-- whatever test `p` the tasks are counted, that task is the difference.
pub unbind_task_lem :
    (id : ℕ) (c : Controller) (p : ChronoTask → Bool)
    → ((count (has_id id) c.tasks ≡ 0) × (unbind_task id c ≡ c))
      ⊎ ((t : ChronoTask) × (t.id ≡ id)
          × (count p c.tasks ≡ (if p t then 1 else 0) + count p (unbind_task id c).tasks))
unfolding unbind_task
unbind_task_lem id c p = elim (count-erase id p c.tasks) [
  | inl (n, z) ↦ inl (z, rw (n, unbind_task) refl)
  | inr (t, rest, n, same, d) ↦ inr (
    t,
    same,
    rw (n, unbind_task) (d ∙ ap (λ m. (if p t then 1 else 0) + m) (sym (count-make_heap p rest))),
  )
]
