-- ===== src/Trace/State.antt =====
-- src/extension/TraceController.hpp, and the messages it reads: src/message/ReactionStatistics.hpp,
-- src/message/LogMessage.hpp, src/LogLevel.hpp and src/threading/ReactionIdentifiers.hpp. The file is the list
-- of its packets, the last one first, and `none` when it is closed.
use nuclear.Base.{ℕ, ◌==◌, ◌&&◌, List, [], ◌∷◌, Option, none, some, Bool, true, false}
use nuclear.Trace.Packets.{Packet, nuclear_name}
use nuclear.Trace.Interner.{Interner}

pub record Identifiers : Type 0 where
  pub address : ℕ
  pub name : List ℕ
  pub reactor : List ℕ
  pub dsl : List ℕ

-- `ThreadInfo`: the thread, and the name of its pool if it is in one.
pub record ThreadInfo : Type 0 where
  pub thread_id : ℕ
  pub pool : Option (List ℕ)

-- `Event`, the data of one moment.
pub record Moment : Type 0 where
  pub thread : ThreadInfo
  pub real_time : ℕ
  pub thread_time : ℕ

pub record Statistics : Type 0 where
  pub identifiers : Option Identifiers
  pub task_id : ℕ
  pub created_at : Moment
  pub started_at : Moment
  pub finished_at : Moment

pub data EventType : Type 0 where
  created : EventType
  missing_data : EventType
  blocked : EventType
  started : EventType
  finished : EventType

pub data LogLevel : Type 0 where
  unknown : LogLevel
  trace : LogLevel
  debug : LogLevel
  info : LogLevel
  warn : LogLevel
  error : LogLevel
  fatal : LogLevel

pub record LogMessage : Type 0 where
  pub level : LogLevel
  pub message : List ℕ
  pub statistics : Option Statistics

-- `TraceController`; the two handles are whether they are bound.
pub record TraceController : Type 0 where
  pub file : Option (List Packet)
  pub next_uuid : ℕ
  pub process_uuid : ℕ
  pub thread_uuids : List (ℕ × ℕ)
  pub categories : Interner (List ℕ)
  pub event_names : Interner (Option Identifiers)
  pub log_message_bodies : Interner (List ℕ)
  pub event_bound : Bool
  pub log_bound : Bool

abbrev pub new_controller : TraceController
new_controller = record {
  file = none;
  next_uuid = 2;
  process_uuid = 0;
  thread_uuids = [];
  categories = [];
  event_names = [];
  log_message_bodies = [];
  event_bound = false;
  log_bound = false;
}

-- The equality of strings, of shared pointers and of thread ids.
unfoldable pub same_string : List ℕ → List ℕ → Bool
same_string [] [] = true
same_string [] (b ∷ bs) = false
same_string (a ∷ rest) [] = false
same_string (a ∷ rest) (b ∷ bs) = let tail = same_string rest bs in (a == b) && tail

unfoldable pub same_pointer : Option Identifiers → Option Identifiers → Bool
same_pointer none none = true
same_pointer none (some b) = false
same_pointer (some a) none = false
same_pointer (some a) (some b) = a.address == b.address

abbrev pub same_thread : ℕ → ℕ → Bool
same_thread a b = a == b

abbrev pub reaction_name : List ℕ
reaction_name = 114 ∷ 101 ∷ 97 ∷ 99 ∷ 116 ∷ 105 ∷ 111 ∷ 110 ∷ []

abbrev pub log_name : List ℕ
log_name = 108 ∷ 111 ∷ 103 ∷ []

abbrev pub power_plant_name : List ℕ
power_plant_name = 80 ∷ 111 ∷ 119 ∷ 101 ∷ 114 ∷ 80 ∷ 108 ∷ 97 ∷ 110 ∷ 116 ∷ []

-- "Non NUClear".
abbrev pub no_pool_name : List ℕ
no_pool_name = 78 ∷ 111 ∷ 110 ∷ 32 ∷ nuclear_name
