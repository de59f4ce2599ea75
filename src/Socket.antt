-- ===== src/Socket.antt =====
-- src/dsl/word/UDP.hpp and TCP.hpp, src/dsl/word/emit/UDP.hpp, src/util/FileDescriptor.cpp and
-- src/util/network: the words that open sockets, over a system that answers their calls.
pub mod System
pub mod Addresses
pub mod Udp
pub mod Tcp
pub mod Packets
pub mod Quiet
pub mod Owned
pub mod Faults
pub mod Descriptor
mod Tests
