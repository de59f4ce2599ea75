-- ===== src/Chrono.antt =====
-- src/clock.cpp, src/dsl/operation/ChronoTask.hpp and src/extension/ChronoController.cpp: the clock that
-- can be set, and the tasks that run at its times. A time or a duration is an integer count of the
-- clock's ticks, without the bound of its 64 bits.
pub mod Clock
pub mod Tasks
pub mod Handlers
pub mod Travel
pub mod Turn
pub mod Due
pub mod Events
pub mod Accuracy
mod Tests
