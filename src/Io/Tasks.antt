-- ===== src/Io/Tasks.antt =====
-- src/extension/IOController_Posix.ipp: `rebuild_list`, `fire_event` and what `process_event` does to a task.
use nuclear.Base.{
  ℕ, zero, suc, ◌+◌, ◌-◌, ◌/◌, ◌==◌, ltb, List, [], ◌∷◌, Option, none, some, Bool, false, not, ◌&&◌,
  if◌then◌else◌, length, get_elem?,
}
use nuclear.Io.Events.{
  Events, no_events, join, meet, remove, has_any, to_number, just, pollin, pollhup, pollerr,
  pollnval,
}

-- `Task`, with the id of its reaction.
pub record Task : Type 0 where
  pub fd : ℕ
  pub listening_events : Events
  pub waiting_events : Events
  pub processing_events : Events
  pub reaction : ℕ

-- `pollfd`.
pub record Watch : Type 0 where
  pub fd : ℕ
  pub events : Events
  pub revents : Events

-- A task that was submitted, and the events it was given.
pub record Submission : Type 0 where
  pub reaction : ℕ
  pub events : Events

unfoldable pub sorts_before : Task → Task → Bool
sorts_before a b =
    if a.fd == b.fd
    then ltb (to_number a.listening_events) (to_number b.listening_events)
    else ltb a.fd b.fd

-- `std::sort` after a task was pushed to the back of a sorted list.
unfoldable pub insert_sorted : Task → List Task → List Task
insert_sorted t [] = t ∷ []
insert_sorted t (x ∷ xs) =
    let rest = insert_sorted t xs in if sorts_before t x then t ∷ x ∷ xs else x ∷ rest

-- The events of a task that are being processed or wait for it.
abbrev pub masked : Task → Events
masked t = join t.processing_events t.waiting_events

-- The rest of the loop of `rebuild_list`, behind the last watch.
unfoldable pub rebuild_from : Watch → List Task → List Watch
rebuild_from last [] = last ∷ []
rebuild_from last (t ∷ ts) =
    let merged =
      rebuild_from
        (record last { events = remove (join last.events t.listening_events) (masked t) }) ts in
    let added =
      rebuild_from
        (record { fd = t.fd; events = remove t.listening_events (masked t); revents = no_events })
        ts in
    if t.fd == last.fd then merged else last ∷ added

abbrev pub notify_watch : ℕ → Watch
notify_watch recv = record {
  fd = recv;
  events = join (just pollin) (join (just pollerr) (just pollnval));
  revents = no_events;
}

-- `rebuild_list`.
unfoldable pub rebuild_list : ℕ → List Task → List Watch
rebuild_list recv tasks = rebuild_from (notify_watch recv) tasks

abbrev pub below : Option Watch → ℕ → Bool
below none fd = false
below (some w) fd = ltb w.fd fd

-- `std::lower_bound`, by halving the range from `first` on of length `len`.
unfoldable pub lower_bound_loop : ℕ → ℕ → ℕ → ℕ → List Watch → ℕ
lower_bound_loop zero first len fd ws = first
lower_bound_loop (suc fuel) first len fd ws =
    let right = lower_bound_loop fuel (first + len / 2 + 1) (len - len / 2 - 1) fd ws in
    let left = lower_bound_loop fuel first (len / 2) fd ws in
    if len == 0 then first else if below (get_elem? ws (first + len / 2)) fd then right else left

unfoldable pub lower_bound : ℕ → List Watch → ℕ
lower_bound fd ws = lower_bound_loop (length ws + 1) 0 (length ws) fd ws

abbrev pub is_fd : Option Watch → ℕ → Bool
is_fd none fd = false
is_fd (some w) fd = w.fd == fd

unfoldable pub update_at : ℕ → (Events → Events) → List Watch → List Watch
update_at n f [] = []
update_at zero f (w ∷ ws) = record w { events = f w.events } ∷ ws
update_at (suc n) f (w ∷ ws) = w ∷ update_at n f ws

-- The search for the watch of a file, and the change of its events if it is found.
unfoldable pub update_watch : ℕ → (Events → Events) → List Watch → List Watch
update_watch fd f ws =
    if is_fd (get_elem? ws (lower_bound fd ws)) fd then update_at (lower_bound fd ws) f ws else ws

-- What `fire_event` leaves: the task, the watches, and what it submitted.
pub record Fired : Type 0 where
  pub task : Task
  pub watches : List Watch
  pub submitted : List Submission

-- The waiting events of a task after `poll`, for the events that happened and whether there was
-- nothing to read.
unfoldable pub now_waiting : Events → Bool → Task → Events
now_waiting revents maybe_eof t =
    let happened = join t.waiting_events (meet t.listening_events revents) in
    if maybe_eof && not (t.processing_events pollin) then join happened (just pollhup) else happened

module _ (gives_task : ℕ → Events → Bool) where
  -- The event is passed on: the reaction gives a task for it or does not.
  unfoldable pub pass_on : Task → List Watch → Fired
  pass_on t ws =
      if gives_task t.reaction t.waiting_events
      then record {
        task = record t { processing_events = t.waiting_events; waiting_events = no_events };
        watches = update_watch t.fd (λ e. remove e t.waiting_events) ws;
        submitted = record { reaction = t.reaction; events = t.waiting_events } ∷ [];
      }
      else record {
        task = record t {
          waiting_events = join t.waiting_events t.processing_events;
          processing_events = no_events;
        };
        watches = ws;
        submitted = [];
      }

  -- `fire_event`.
  unfoldable pub fire_event : Task → List Watch → Fired
  fire_event t ws =
      if not (has_any t.processing_events) && has_any t.waiting_events
      then pass_on t ws
      else record { task = t; watches = ws; submitted = [] }

  -- The body of the loop of `process_event`.
  unfoldable pub handle_task : Events → Bool → Task → List Watch → Fired
  handle_task revents maybe_eof t ws =
      fire_event (record t { waiting_events = now_waiting revents maybe_eof t }) ws
