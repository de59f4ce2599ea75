-- ===== src/Trace.antt =====
-- src/extension/trace and src/extension/TraceController.cpp: the protobuf encoder, and the controller that
-- writes the trace files with it.
pub mod Protobuf
pub mod Packets
pub mod Interner
pub mod Framing
pub mod State
pub mod Controller
mod Tests
