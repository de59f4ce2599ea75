-- ===== src/Dsl/Watchdog.antt =====
-- src/dsl/word/Watchdog.hpp and src/dsl/word/emit/Watchdog.hpp: the times of service of a group of
-- watchdogs, each operation a section under their mutex, and the check of one watchdog. The runtime
-- arguments are numbers, times are nanoseconds, and a negative period is out of the model.
pub mod Prompt
pub mod Faults
use mathlib.Core.Option.{some-injective}
use nuclear.Base.{
  sym, ℕ, ◌+◌, ◌≤◌, ◌<◌, ◌≡◌, ◌≢◌, refl, ap, ◌∙◌, List, [], ◌∷◌, Option, none, some, Bool, true,
  false, not, ltb, ◌==◌, ==_iff, if◌then◌else◌, max, arith,
}

-- A map from the runtime arguments to the times of their service; `none` is the null pointer.
abbrev pub Times : Type 0
Times = Option (List (ℕ × ℕ))

unfoldable pub at : ℕ → List (ℕ × ℕ) → Option ℕ
at k [] = none
at k ((j, t) ∷ m) = if j == k then some t else at k m

unfoldable pub erase : ℕ → List (ℕ × ℕ) → List (ℕ × ℕ)
erase k [] = []
erase k ((j, t) ∷ m) = if j == k then erase k m else (j, t) ∷ erase k m

unfoldable pub assign : ℕ → ℕ → List (ℕ × ℕ) → List (ℕ × ℕ)
assign k v [] = []
assign k v ((j, t) ∷ m) = if j == k then (j, v) ∷ m else (j, t) ∷ assign k v m

unfoldable pub insert_new : ℕ → ℕ → Option ℕ → List (ℕ × ℕ) → List (ℕ × ℕ)
insert_new k now none m = (k, now) ∷ m
insert_new k now (some t) m = m

-- `WatchdogDataStore::init`, `get`, `service` and `unbind`; `none` as a result is `std::domain_error`.
unfoldable pub init : ℕ → ℕ → Times → Times
init k now none = some ((k, now) ∷ [])
init k now (some m) = some (insert_new k now (at k m) m)

unfoldable pub get : ℕ → Times → Option ℕ
get k none = none
get k (some m) = at k m

assigned : ℕ → ℕ → Option ℕ → List (ℕ × ℕ) → Option Times
assigned k when none m = none
assigned k when (some t) m = some (some (assign k when m))

unfoldable pub service : ℕ → ℕ → Times → Option Times
unfolding assigned
service k when none = none
service k when (some m) = assigned k when (at k m) m

unfoldable pub unbind : ℕ → Times → Times
unbind k none = none
unbind k (some m) = some (erase k m)

-- The store without runtime arguments. `unbind` resets the copy of the pointer that `TypeMap::get` returns.
unfoldable pub init_void : ℕ → Option ℕ → Option ℕ
init_void now none = some now
init_void now (some t) = some t

unfoldable pub service_void : ℕ → Option ℕ → Option (Option ℕ)
service_void when none = none
service_void when (some t) = some (some when)

abbrev reset : Option ℕ → Option ℕ
reset copy = none

unfoldable pub unbind_void : Option ℕ → Option ℕ
unbind_void store = let copy = reset store in store

-- A watchdog bound with the argument `argument`: the times of its group, the time of its `ChronoTask`, and
-- when its reaction was last submitted, or else when it was bound.
pub record Watchdog : Type 0 where
  pub times : Times
  pub time : ℕ
  pub submitted : ℕ

-- `chrono_task`: whether it submits the reaction, and the time of the next check.
unfoldable pub chrono_task : ℕ → ℕ → ℕ → ℕ → Bool × ℕ
chrono_task period now service_time time =
    if ltb (service_time + period) now
    then (true, time + period)
    else (false, service_time + period)

checked : ℕ → ℕ → Watchdog → Option ℕ → Option Watchdog
unfolding chrono_task
checked period now w none = none
checked period now w (some t) =
    let (submits, next) = chrono_task period now t w.time in
    some (record w { time = next; submitted = (if submits then now else w.submitted) })

-- The function of the `ChronoTask` that `bind` makes, called at `now`; `none` is the exception.
unfoldable pub check : ℕ → ℕ → ℕ → Watchdog → Option Watchdog
unfolding checked
check period argument now w = checked period now w (get argument w.times)

-- `Watchdog::bind`, with the times at which the clock is read.
unfoldable pub bind : ℕ → ℕ → ℕ → ℕ → Times → Watchdog
bind period argument now later times = record {
  times = init argument now times;
  time = later + period;
  submitted = later;
}

at-erase : (k j : ℕ) (m : List (ℕ × ℕ)) → at j (erase k m) ≡ (if k == j then none else at j m)
unfolding at erase
at-erase k j [] = ground arith
at-erase k j ((i, t) ∷ m) = ground (arith, at-erase k j m)

at-assign :
    (k j v : ℕ) (m : List (ℕ × ℕ))
    → at j (assign k v m)
      ≡ (if k == j then elim (at j m) [ none ↦ none | some t ↦ some v ] else at j m)
unfolding at assign
at-assign k j v [] = ground arith
at-assign k j v ((i, t) ∷ m) = ground (arith, at-assign k j v m)

-- What an unbinding leaves.
pub get-unbind : (k j : ℕ) (s : Times) → get j (unbind k s) ≡ (if k == j then none else get j s)
unfolding get unbind
get-unbind k j none = ground arith
get-unbind k j (some m) = at-erase k j m

assigned-get :
    (k j when : ℕ) (m : List (ℕ × ℕ)) (s' : Times) (t : ℕ) (found : Option ℕ)
    → at j m ≡ some t
    → assigned k when found m ≡ some s'
    → get j s' ≡ (if k == j then some when else some t)
unfolding assigned
assigned-get k j when m s' t none e h = ground arith
assigned-get k j when m s' t (some u) e h =
    ap (get j) (sym (some-injective (some (assign k when m)) s' h))
    ∙ unfold get in
      at-assign k j when m
      ∙ ap (λ o. if k == j then elim o [ none ↦ none | some t ↦ some when ] else o) e

pub get-service :
    (k j when : ℕ) (s s' : Times) (t : ℕ)
    → service k when s ≡ some s'
    → get j s ≡ some t
    → get j s' ≡ (if k == j then some when else some t)
unfolding get service
get-service k j when none s' t h e = absurd (cc h)
get-service k j when (some m) s' t h e = assigned-get k j when m s' t (at k m) e h

pub get-init : (k now : ℕ) (s : Times) → (t : ℕ) × (get k (init k now s) ≡ some t)
unfolding get init
get-init k now none = (now, unfold at in ground arith)
get-init k now (some m) = inserted (at k m) refl
  where
    inserted : (o : Option ℕ) → at k m ≡ o → (t : ℕ) × (at k (insert_new k now o m) ≡ some t)
    inserted none e = (now, unfold insert_new at in ground arith)
    inserted (some t) e = (t, unfold insert_new in e)
