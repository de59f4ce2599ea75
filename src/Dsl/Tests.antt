-- ===== src/Dsl/Tests.antt =====
-- Words, emissions and watchdogs at small inputs.
use nuclear.Base.{
  ℕ, ◌+◌, ◌==◌, if◌then◌else◌, ◌≡◌, refl, List, [], ◌∷◌, map, Option, none, some, Bool, true, leb,
  arith,
}
use nuclear.Dsl.Arguments.{
  Splits, Greedy, fused, function_fusion, or_else, with_range, fused-Greedy,
}
use nuclear.Dsl.Last.{deliver, merge, wrapped, stored, windows, latest, deliver-windows}
use nuclear.Dsl.Emit.{Reaction, Stores, emit}
use nuclear.Dsl.Delivery.{emit-delivers, emit_once_fault, unbinds_itself}
use nuclear.Dsl.Watchdog.{Watchdog, unbind, check}
use nuclear.Dsl.Watchdog.Prompt.{Prompt}
use nuclear.Dsl.Watchdog.Faults.{check-unbind}

-- A word takes at most as many arguments as its number.
abbrev up_to : ℕ → ℕ → ℕ → Bool
up_to f start end = leb end (start + f)

two_words : fused up_to 4 (2 ∷ 3 ∷ []) 1 ≡ some ((1, 3) ∷ (3, 4) ∷ [])
unfolding fused function_fusion or_else with_range
two_words = refl

fused-Greedy_example :
    (rs : List (ℕ × ℕ)) × (fused up_to 4 (2 ∷ 3 ∷ []) 1 ≡ some rs)
    × Splits up_to 4 (2 ∷ 3 ∷ []) 1 rs
    × Greedy up_to 4 rs ((1, 2) ∷ (2, 4) ∷ [])
fused-Greedy_example =
    fused-Greedy up_to 4 (2 ∷ 3 ∷ []) 1 ((1, 2) ∷ (2, 4) ∷ []) (omega arith)
      (refl, omega arith, omega arith, refl, (refl, omega arith, omega arith, refl, refl))

abbrev a_reaction : ℕ → Reaction
a_reaction id = record { id = id; emit_stats = true }

abbrev two_bound : Stores ℕ ℕ
two_bound = record {
  callbacks = a_reaction 1 ∷ a_reaction 2 ∷ [];
  thread_store = none;
  data_store = some 8;
  world = 0;
}

-- A task that emits another value of the type: the thread's value is gone, and the data are others.
abbrev nested : Bool → Reaction → Option ℕ → Stores ℕ ℕ → Stores ℕ ℕ
nested inline r got s = record s { thread_store = none; data_store = some 4; world = s.world + 1 }

-- The second reaction is disabled.
abbrev first_only : Reaction → Stores ℕ ℕ → Bool
first_only r s = r.id == 1

emit-delivers_example :
    (end : Stores ℕ ℕ) × (emit first_only nested true 5 two_bound
      ≡ some (map (λ r. (r, if r.id == 1 then some 5 else none)) two_bound.callbacks, end))
    × (end.callbacks ≡ two_bound.callbacks)
    × (end.thread_store ≡ none)
    × (end.data_store ≡ some 5)
emit-delivers_example =
    emit-delivers first_only nested true 5 (λ r. r.id == 1) (λ r s. refl) (λ r o s. refl) two_bound

abbrev once_two : Bool → Reaction → Option ℕ → Stores ℕ ℕ → Stores ℕ ℕ
once_two inline r none s = s
once_two inline r (some v) s = record s { callbacks = unbinds_itself 2 r s.callbacks }

abbrev all_accept : Reaction → Stores ℕ ℕ → Bool
all_accept r s = true

emit_once_fault_example : emit all_accept once_two true 5 two_bound ≡ none
emit_once_fault_example =
    emit_once_fault all_accept once_two true 5 2 (λ r s h. refl) (λ r v s. refl) (λ r s. refl)
      two_bound (a_reaction 1 ∷ []) (a_reaction 2) [] refl refl

-- Bound at 100 with a period of 10, and checked once at 115.
abbrev checked_once : Watchdog
checked_once = record { times = some ((3, 100) ∷ []); time = 120; submitted = 115 }

check-unbind_example :
    check 10 3 125 (record checked_once { times = unbind 3 checked_once.times }) ≡ none
check-unbind_example = check-unbind 10 3 125 checked_once

third_window :
    deliver {A = ℕ} 2 [] (4 ∷ 5 ∷ 6 ∷ [])
    ≡ ((4 ∷ []) ∷ (4 ∷ 5 ∷ []) ∷ (5 ∷ 6 ∷ []) ∷ [], 5 ∷ 6 ∷ [])
unfolding deliver merge wrapped stored
third_window = refl

deliver-windows_example :
    deliver {A = ℕ} 2 [] (4 ∷ 5 ∷ 6 ∷ [])
    ≡ (windows 2 [] (4 ∷ 5 ∷ 6 ∷ []), latest 2 (4 ∷ 5 ∷ 6 ∷ []))
deliver-windows_example = deliver-windows 2 (4 ∷ 5 ∷ 6 ∷ [])
