-- ===== src/Lib.antt =====
-- A verification library of NUClear, a framework for message passing between reactions.
--
-- The program and how its parts interact. Reactions are bound through a DSL of templates and run as
-- tasks: the scheduler (src/threading/scheduler) submits a task to a pool of threads, and a task that
-- belongs to a group (Sync) takes a token of the group to run. The extensions are reactors
-- on top: the network extension exchanges messages with other programs over UDP (src/extension/network),
-- and the trace extension writes what the scheduler does as protobuf
-- (src/extension/trace).
--
-- Base: shared names, and lists and integers over the native numbers.
--
-- Chrono: src/clock.cpp, src/dsl/operation/ChronoTask.hpp and src/extension/ChronoController.cpp. Clock is the
--   clock that can be set and scaled, with its ring of three copies. Tasks is the tasks and their heap,
--   Handlers the handlers, and Turn one turn of the controller's loop up to its wait, with what follows
--   a wait as a step of its own. Travel, Due, Events and Accuracy are about these. The base clock and
--   the product of a duration and a factor are arguments, and a task's function has no effect but
--   what it returns.
--
-- Io: src/extension/IOController_Posix.ipp, IOController.hpp and the flags of src/dsl/word/IO.hpp. Events is the
--   sets of flags, Tasks the list of watches and the firing of a task, Controller the handlers and a
--   turn of the loop. Recorded and Search are about events that are kept and watches that are found.
--
-- Network: src/extension/network/NUClearNetwork.cpp, NUClearNetwork.hpp and wire_protocol.hpp.
--   Wire is the packets as bytes, `encode` and `parse` for the packed structs and their casts. State is
--   the members of NUClearNetwork, with a heap of targets for its shared pointers and a list of events
--   for what it sends and calls back. Bits and Fragment are the bitsets and the cutting and joining of a
--   payload. Targets, Data and Acks are the branches of `process_packet`, Send is `send` and
--   `retransmit`, and Process is `process_packet`, `process`, `shutdown` and `reset`. An Outcome is
--   `done`, `raised` for an exception, `fault` for an access out of bounds, and `hangs` for a loop
--   without end. Quiet, Peers, Membership and Lifecycle are about the agreement of the lists of
--   targets; FreeId is about the search for a packet id; Bounds is about the accesses to the arrays.
--   Sockets is the opening and closing of the two sockets. Arrival is about
--   the fragments of a packet that come one after the other. Controller is
--   src/extension/NetworkController.cpp with the word Network of src/dsl/word: the reactions that listen
--   and what a packet does; Delivery is about it. Floats, the sockets of Process and the clock
--   are arguments. Samples and Tests hold small concrete runs, here and in the other parts.
--
-- Threading: src/threading/scheduler. Priority is queue/Priority.hpp and the order of lock handles.
--   Queue is the interface of the lock-free queues and what it promises, with Queue/Blocks for the linked
--   blocks, Queue/Mpsc for the queue of one consumer and Queue/Mpmc for the queue of many, for calls
--   that do not overlap. Buckets is the array of queues, each a first in, first out list.
--   Group is Group.cpp, with Group/Handles for the slow path: each function is an atomic section, so
--   `park_publish` and `park_reconcile` are two, and `running` counts the RunningLock objects alive.
--   Slots, Accounts, Operations, Steps, Room, Pending and Phantom are about its
--   tokens and queue. Pool is Pool.cpp and CountingLock.cpp, with
--   one turn of the loop of `get_task` as a function, and `submit` in the sections before and under the
--   mutex; the groups decide whether a task can be locked,
--   and this is its parameter. Scheduler is Scheduler.cpp and CombinedLock.cpp over an interface of
--   the pools.
--
-- Reaction: src/threading/Reaction.cpp, ReactionTask.cpp and ReactionHandle.cpp, src/util/CallbackGenerator.hpp
--   and src/dsl/word/Buffer.hpp. Tasks is a reaction and its tasks with the ids and the statistics,
--   Generator is `operator()` of the generator and the callback it binds, with what they emit, and
--   Buffer is the precondition of Buffer with the tasks of several threads as steps. Life and Causes
--   are about the answers of a reaction and about chains of causes.
--
-- Trace: src/extension/trace and src/extension/TraceController.cpp. Protobuf is protobuf.cpp, with a
--   decoder of the format beside it. Packets is what the controller writes, as packets and as bytes;
--   Interner is StringInterner.hpp; State and Controller are the controller's members, functions and
--   handlers, and Defined, Runs, Traces and Restart are about the references within a file,
--   and Framing about its bytes.
--
-- Dsl: src/dsl and src/util/FunctionFusion.hpp. Arguments is the search for the ranges of arguments that
--   the words take, Calls the calls with them, and Fusion the choice to run inline. Emit is the stores
--   of a type with binding and both emissions, where what a submitted task does is an argument, and
--   Delivery is about it. Watchdog is the times of service and the check, Prompt and Faults are about
--   it; runtime arguments are numbers there, and so are times. Last is the merging of the latest
--   values, for tasks made one after the other. Always is the tasks and idle tasks of a reaction that
--   always runs, over the queues of Threading; Runs and Piles are about it.
--
-- Serialise: src/util/serialise/Serialise.hpp, over the layout of a type in memory.
--
-- Socket: src/dsl/word/UDP.hpp, TCP.hpp and emit/UDP.hpp, src/util/FileDescriptor.cpp and src/util/network.
--   System is the calls to the system, which answers them from what happened so far, with exceptions
--   as errors and the scopes that own a descriptor. Addresses is resolve and the tests on addresses,
--   Udp and Tcp are the words, and Packets the datagrams that they read. Descriptor is the objects that own
--   a descriptor. Quiet, Owned and Faults are about these.
--
-- Bounds and fuel. The loops of the queues have two rounds to enqueue and one more than there are
-- blocks to dequeue, since each round but the last leaves a block. Numbers of a width are wrapped
-- where the source wraps them. A varint is written with fuel for ten bytes, which 64 bits fill. The
-- search for a free packet id tries each of 2^16 ids and hangs when none is free, as the source does.
--
-- Not modelled: the other words and the public interface (templates that forward), calls on the lock-free queues
-- that overlap, the groups within the scheduler's own class, the other extensions, and the system
-- calls.
pub mod Base
pub mod Chrono
pub mod Reaction
pub mod Io
pub mod Network
pub mod Threading
pub mod Trace
pub mod Serialise
pub mod Socket
pub mod Dsl
