-- ===== src/Io/Search.antt =====
-- src/extension/IOController_Posix.ipp: the search in the watches, which begin with the pipe's.
use nuclear.Base.{ℕ, ◌==◌, ◌≡◌, refl, arith, [], ◌∷◌, some, true, false}
use nuclear.Io.Events.{Events, no_events}
use nuclear.Io.Tasks.{Task, rebuild_list}
use nuclear.Io.Controller.{IoController, find_reaction}

same_id : (n : ℕ) → (n == n) ≡ true
same_id n = ground arith

-- A task on a file that sorts before the pipe, of which some events are being processed and none
-- waits, in a list of watches that was built meanwhile.
abbrev pub processing : ℕ → ℕ → Events → Events → Task
processing id fd listening events = record {
  fd = fd;
  listening_events = listening;
  waiting_events = no_events;
  processing_events = events;
  reaction = id;
}

abbrev pub built : ℕ → Task → IoController
built recv t = record {
  recv = recv;
  running = true;
  dirty = false;
  watches = rebuild_list recv (t ∷ []);
  tasks = t ∷ [];
  submitted = [];
}

found : (id recv : ℕ) (t : Task) → t.reaction ≡ id → find_reaction id (t ∷ []) ≡ some t
unfolding find_reaction
found id recv t e = rw (e, same_id id) refl
