-- ===== src/Io/Controller.antt =====
-- src/extension/IOController_Posix.ipp: the state of the controller and its handlers, each under the mutex.
use nuclear.Base.{
  ℕ, ◌==◌, ltb, List, [], ◌∷◌, ◌++◌, Option, none, some, Bool, true, false, ◌&&◌, if◌then◌else◌,
}
use nuclear.Io.Events.{Events, no_events, join, has_any, pollin, pollhup}
use nuclear.Io.Tasks.{
  Task, Watch, Submission, insert_sorted, rebuild_list, update_watch, fire_event, handle_task,
}

-- `IOController`, with the tasks that it submitted, the last one first.
pub record IoController : Type 0 where
  pub recv : ℕ
  pub running : Bool
  pub dirty : Bool
  pub watches : List Watch
  pub tasks : List Task
  pub submitted : List Submission

-- "Configure IO Reaction".
unfoldable pub configure : ℕ → Events → ℕ → IoController → IoController
configure fd events reaction c = record c {
  tasks =
      insert_sorted
        (record {
          fd = fd;
          listening_events = events;
          waiting_events = no_events;
          processing_events = no_events;
          reaction = reaction;
        })
        c.tasks;
  dirty = true;
}

-- The tasks less the first one of the reaction.
unfoldable pub erase_reaction : ℕ → List Task → List Task
erase_reaction id [] = []
erase_reaction id (t ∷ ts) =
    let rest = erase_reaction id ts in if t.reaction == id then ts else t ∷ rest

-- "Unbind IO Reaction".
unfoldable pub unbind : ℕ → IoController → IoController
unbind id c = record c { tasks = erase_reaction id c.tasks; dirty = true }

-- "Shutdown IO Controller".
unfoldable pub shutdown : IoController → IoController
shutdown c = record c { running = false }

-- `rebuild_list`, with the flag that it clears.
unfoldable pub rebuild : IoController → IoController
rebuild c = record c { watches = rebuild_list c.recv c.tasks; dirty = false }

unfoldable pub find_reaction : ℕ → List Task → Option Task
find_reaction id [] = none
find_reaction id (t ∷ ts) =
    let rest = find_reaction id ts in if t.reaction == id then some t else rest

-- The first task of the reaction, replaced.
unfoldable pub replace_reaction : ℕ → Task → List Task → List Task
replace_reaction id new [] = []
replace_reaction id new (t ∷ ts) =
    let rest = replace_reaction id new ts in if t.reaction == id then new ∷ ts else t ∷ rest

-- No task is for the file or for one that sorts behind it.
unfoldable pub none_from : ℕ → List Task → Bool
none_from fd [] = true
none_from fd (t ∷ ts) = let rest = none_from fd ts in ltb t.fd fd && rest

module _ (gives_task : ℕ → Events → Bool) where
  -- The loop of `process_event` over the tasks of the file.
  unfoldable pub handle_all :
      ℕ → Events → Bool → List Task → List Watch → List Task × List Watch × List Submission
  handle_all fd revents maybe_eof [] ws = ([], ws, [])
  handle_all fd revents maybe_eof (t ∷ ts) ws =
      let fired =
        if t.fd == fd
        then handle_task gives_task revents maybe_eof t ws
        else record { task = t; watches = ws; submitted = [] } in
      let (tasks, watches, submitted) = handle_all fd revents maybe_eof ts fired.watches in
      (fired.task ∷ tasks, watches, submitted ++ fired.submitted)

  -- `process_event` of a file, for what `poll` reported and whether there was nothing to read; the pipe's
  -- own event is only read away.
  unfoldable pub process_event : Watch → Bool → IoController → IoController
  process_event w nothing_to_read c =
      if w.fd == c.recv
      then c
      else if none_from w.fd c.tasks
      then record c { dirty = true }
      else (let (tasks, watches, submitted) =
            handle_all w.fd w.revents (w.revents pollin && nothing_to_read) c.tasks c.watches in
          record c { tasks = tasks; watches = watches; submitted = submitted ++ c.submitted })

  unfoldable pub process_all : List Watch → (ℕ → Bool) → IoController → IoController
  process_all [] nothing_to_read c = c
  process_all (w ∷ ws) nothing_to_read c =
      process_all ws nothing_to_read
        (if has_any w.revents then process_event w (nothing_to_read w.fd) c else c)

  -- What "IO Finished" does to a task that it found.
  unfoldable pub finish_task : ℕ → Task → IoController → IoController
  finish_task id t c =
      if t.processing_events pollhup
      then record c { tasks = erase_reaction id c.tasks; dirty = true }
      else (let fired =
            fire_event gives_task (record t { processing_events = no_events })
              (update_watch t.fd (λ e. join e t.processing_events) c.watches) in
          record c {
            tasks = replace_reaction id fired.task c.tasks;
            watches = fired.watches;
            submitted = fired.submitted ++ c.submitted;
          })

  -- "IO Finished".
  unfoldable pub finished : ℕ → IoController → IoController
  finished id c = elim (find_reaction id c.tasks) [ none ↦ c | some t ↦ finish_task id t c ]

  abbrev rebuilt_if : Bool → IoController → IoController
  rebuilt_if true c = rebuild c
  rebuilt_if false c = c

  -- One run of "IO Controller": `poll` fills in what happened, unless a wake is pending.
  unfoldable pub turn : (List Watch → List Watch) → Bool → (ℕ → Bool) → IoController → IoController
  turn poll wake_pending nothing_to_read c =
      let ready = rebuilt_if c.dirty c in
      if c.running
      then (if wake_pending then ready else process_all (poll ready.watches) nothing_to_read ready)
      else c
