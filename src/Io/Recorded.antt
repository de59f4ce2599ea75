-- ===== src/Io/Recorded.antt =====
-- src/extension/IOController_Posix.ipp: events are not lost, and a reaction has one task at a time.
use nuclear.Base.{
  ℕ, ◌==◌, arith, ◌≡◌, refl, List, [], ◌∷◌, Bool, true, false, not, ◌&&◌, ◌||◌, if◌then◌else◌,
  Bool-cases, inl, inr, ◌⊎◌,
}
use nuclear.Io.Events.{
  Flag, pollout, pollerr, pollnval, Events, join, meet, has_any, just, pollin, pollhup,
}
use nuclear.Io.Tasks.{Task, Watch, Fired, pass_on, fire_event, now_waiting, handle_task}
use nuclear.Io.Controller.{handle_all}

-- An event waits or is being processed.
unfoldable pub holds : Flag → Task → Bool
holds flag t = t.waiting_events flag || t.processing_events flag

or_false : (a b : Bool) → (a || b) ≡ false → (a ≡ false) × (b ≡ false)
or_false true b e = absurd (cc)
or_false false b e = (refl, e)

no_flag : (flag : Flag) (e : Events) → has_any e ≡ false → e flag ≡ false
unfolding has_any
no_flag pollin e h = ground (arith, h)
no_flag pollout e h = ground (arith, h)
no_flag pollhup e h = ground (arith, h)
no_flag pollerr e h = ground (arith, h)
no_flag pollnval e h = ground (arith, h)

and_true : (a b : Bool) → (not a && b) ≡ true → (a ≡ false) × (b ≡ true)
and_true true b e = absurd (cc)
and_true false b e = (refl, e)

by_if :
    {A : Type 0} (P : A → Type 0) (b : Bool) (x y : A)
    → (b ≡ true → P x)
    → (b ≡ false → P y)
    → P (if b then x else y)
by_if P true x y f g = f refl
by_if P false x y f g = g refl

-- What became of a task: an event that it held it still holds, and it was submitted at most once, and
-- only when nothing of it was being processed; it is then processed for just the submitted events.
pub record Outcome (flag : Flag) (t : Task) (fired : Fired) : Type 0 where
  pub held : (holds flag t && not (holds flag fired.task)) ≡ false
  pub exclusive :
      (fired.submitted ≡ [])
      ⊎ ((has_any t.processing_events ≡ false)
          × (has_any fired.task.processing_events ≡ true)
          × (fired.submitted
              ≡ record { reaction = t.reaction; events = fired.task.processing_events } ∷ []))

module _ (gives_task : ℕ → Events → Bool) where
  pass_on-Outcome :
      (t : Task) (ws : List Watch) (flag : Flag)
      → has_any t.processing_events ≡ false
      → has_any t.waiting_events ≡ true
      → Outcome flag t (pass_on gives_task t ws)
  unfolding pass_on holds join
  pass_on-Outcome t ws flag idle waits =
      by_if (Outcome flag t) (gives_task t.reaction t.waiting_events) _ _
        (λ e. record {
          held = rw (no_flag flag t.processing_events idle) (ground arith);
          exclusive = inr (idle, waits, refl);
        })
        (λ e. record { held = ground arith; exclusive = inl refl })

  -- Firing keeps each event that the task held, and submits a task of its reaction only if none of its
  -- events is being processed; the submitted events are then those that are processed, and not none.
  pub fire_event-Outcome :
      (t : Task) (ws : List Watch) (flag : Flag) → Outcome flag t (fire_event gives_task t ws)
  unfolding fire_event
  fire_event-Outcome t ws flag =
      by_if (Outcome flag t) (not (has_any t.processing_events) && has_any t.waiting_events) _ _
        (λ e. pass_on-Outcome t ws flag (and_true _ _ e).0 (and_true _ _ e).1)
        (λ e. record { held = ground arith; exclusive = inl refl })

-- What a task is to hold after `poll`: what it held, and what has happened to its file and it listens to.
unfoldable pub due_for : Flag → ℕ → Events → Task → Bool
due_for flag fd revents t =
    if t.fd == fd then holds flag t || (t.listening_events flag && revents flag) else holds flag t

-- Each task of a list holds afterwards what it is to hold.
unfoldable pub all_hold : Flag → ℕ → Events → List Task → List Task → Bool
all_hold flag fd revents [] after = true
all_hold flag fd revents (t ∷ ts) [] = false
all_hold flag fd revents (t ∷ ts) (u ∷ us) =
    let rest = all_hold flag fd revents ts us in
    not (due_for flag fd revents t && not (holds flag u)) && rest

chain : (a b c : Bool) → (a && not b) ≡ false → (b && not c) ≡ false → (a && not c) ≡ false
chain false b c e f = refl
chain true false c e f = absurd (cc)
chain true true c e f = f

waits_too :
    (waiting processing listening revents : Bool)
    → (((waiting || processing) || (listening && revents))
        && not ((waiting || (listening && revents)) || processing))
      ≡ false
waits_too true p l r = refl
waits_too false true l r = ground arith
waits_too false false l r = ground arith

same_held : (a : Bool) → (a && not a) ≡ false
same_held true = refl
same_held false = refl

waits_or_closes :
    (waiting processing listening revents closes : Bool)
    → (((waiting || processing) || (listening && revents))
        && not (((waiting || (listening && revents)) || closes) || processing))
      ≡ false
waits_or_closes true p l r c = refl
waits_or_closes false true l r c = ground arith
waits_or_closes false false l r c = ground arith

module _ (gives_task : ℕ → Events → Bool) where
  handle_task-holds :
      (t : Task) (ws : List Watch) (revents : Events) (maybe_eof : Bool) (flag : Flag)
      → ((holds flag t || (t.listening_events flag && revents flag))
          && not (holds flag (handle_task gives_task revents maybe_eof t ws).task))
        ≡ false
  unfolding handle_task holds now_waiting join meet
  handle_task-holds t ws revents maybe_eof flag =
      let woken = record t { waiting_events = now_waiting revents maybe_eof t } in
      chain _ (holds flag woken) _
        (by_if
          (λ (w : Events).
            ((holds flag t || (t.listening_events flag && revents flag))
              && not (w flag || t.processing_events flag))
            ≡ false)
          (maybe_eof && not (t.processing_events pollin)) _ _
          (λ e.
            waits_or_closes (t.waiting_events flag) (t.processing_events flag)
              (t.listening_events flag) (revents flag) (just pollhup flag))
          (λ e.
            waits_too (t.waiting_events flag) (t.processing_events flag) (t.listening_events flag)
              (revents flag)))
        (fire_event-Outcome gives_task woken ws flag).held

  -- No event is lost: after the tasks of a file were handled, each task of the list waits for or processes
  -- what it did before, and a task of the file also all that it listens to and that has happened.
  pub all_hold-handle_all :
      (fd : ℕ) (revents : Events) (maybe_eof : Bool) (ts : List Task) (ws : List Watch)
      (flag : Flag)
      → all_hold flag fd revents ts (handle_all gives_task fd revents maybe_eof ts ws).0 ≡ true
  unfolding all_hold due_for handle_all
  all_hold-handle_all fd revents maybe_eof [] ws flag = refl
  all_hold-handle_all fd revents maybe_eof (t ∷ ts) ws flag = elim (Bool-cases (t.fd == fd)) [
    | inl e ↦
        rw (e, handle_task-holds t ws revents maybe_eof flag)
          (all_hold-handle_all fd revents maybe_eof ts _ flag)
    | inr e ↦ rw (e, same_held (holds flag t)) (all_hold-handle_all fd revents maybe_eof ts ws flag)
  ]
