-- ===== src/Dsl/Watchdog/Faults.antt =====
-- src/dsl/word/Watchdog.hpp: what the unbinding of a watchdog does to others.
use nuclear.Base.{ℕ, ◌≡◌, refl, ap, ◌∙◌, Option, none, some, if◌then◌else◌, ◌==◌, arith}
use nuclear.Dsl.Watchdog.{
  Times, Watchdog, at, insert_new, get, init, unbind, check, checked, init_void, unbind_void,
  get-unbind,
}

self_same : (k : ℕ) (o : Option ℕ) → (if k == k then none else o) ≡ none
self_same k o = ground arith

-- When two watchdogs have the same argument and one of them is unbound, the next check of the other one
-- throws, whatever the time.
pub check-unbind :
    (period k now : ℕ) (w : Watchdog)
    → check period k now (record w { times = unbind k w.times }) ≡ none
unfolding check
check-unbind period k now w =
    ap (checked period now (record w { times = unbind k w.times }))
      (get-unbind k k w.times ∙ self_same k (get k w.times))

init_absent : (k now : ℕ) (s : Times) → get k s ≡ none → get k (init k now s) ≡ some now
unfolding get init at
init_absent k now none e = ground arith
init_absent k now (some m) e =
    ap (λ o. at k (insert_new k now o m)) e ∙ unfold insert_new at in ground arith

-- A watchdog with an argument that is bound anew begins with the time of its binding; one without
-- keeps the old time of service, although it was unbound in the meantime.
pub rebound_times :
    (k before now : ℕ) (s : Times)
    → (get k (init k now (unbind k (init k before s))) ≡ some now)
      × (init_void now (unbind_void (init_void before none)) ≡ some before)
unfolding init_void unbind_void
rebound_times k before now s = (
  init_absent k now (unbind k (init k before s))
      (get-unbind k k (init k before s) ∙ self_same k (get k (init k before s))),
  refl,
)
