-- ===== src/Io.antt =====
-- src/extension/IOController_Posix.ipp and src/extension/IOController.hpp: the controller that waits for events on
-- file descriptors. `poll`, the pipe that wakes it and the count of bytes to read are arguments; a
-- system call that fails raises an exception and is left out.
pub mod Events
pub mod Tasks
pub mod Controller
pub mod Recorded
pub mod Search
mod Tests
