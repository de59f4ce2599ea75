-- ===== src/Reaction.antt =====
-- src/threading/Reaction.cpp, ReactionTask.cpp and ReactionHandle.cpp, src/util/CallbackGenerator.hpp and
-- src/dsl/word/Buffer.hpp: reactions, and the life of their tasks.
pub mod Tasks
pub mod Generator
pub mod Life
pub mod Causes
pub mod Buffer
mod Tests
