-- ===== src/Lib.antt =====
-- A verification library for Hudp, a reliable-UDP library in C++.
--
-- A message (common/MsgImpl.cpp) carries a header (common/MsgHead.cpp) and a body. On its way out it
-- may wait in the priority queue (common/PriorityQueue.cpp), gets an id (common/IncrementalId.cpp),
-- takes pending acks along (common/PendAck.cpp), waits in the flow queue
-- (net/controller/FlowQueue.cpp) and is serialized (common/Serializes.cpp, common/BitStream.cpp). On
-- its way in it is parsed and goes through one of three receive lists (common/OrderListImpl.cpp),
-- by the reliability that its sender asked for. The timeout is estimated in common/Rto.cpp.
--
-- Files: `Common` has the helpers, `Config` the constants and flag words. `Message` and
-- `Message/MsgHead`, `IncrementalId`, `PriorityQueue`, `FlowQueue`, `OrderList`, `PendAck`, `Rto`,
-- `BitStream` and `Serializes` model the files of those names, one function for each method in the
-- source's words (`AddReliableAck` is `add_reliable_ack`); their children hold the proofs, each named
-- for what it proves, and `Tests`.
--
-- `SocketImpl` and `SocketRecv` model net/SocketImpl.cpp: the first has the state, the status machine
-- and the way out, the second the way in, which composes the receive lists and the pending acks.
-- Calls that leave for a part that is not modelled there (the send windows, the flow queue, the
-- timer, the upper layer) are kept as a list of outputs in the order of the calls.
--
-- `SendWnd` models common/SendWnd.cpp; the entry that an unordered map gives first is a parameter.
--
-- `FlowSlicing` models filter/FlowSlicingFilter.cpp, which cuts the bodies of the upper layer into
-- slices that fit a message; the next filter is a parameter.
--
-- `MinMax` models net/controller/OsCommon.h, the windowed maximum, and `Bbr` the congestion
-- controller of net/controller/bbr/bbr.cpp that uses it, a module to each of its parts. `Timer` models
-- common/Timer.cpp; a round of its thread is a step before the wait and a step after it. `Pacing`
-- models net/controller/Pacing.cpp.
--
-- `SocketControl` models the flow control in net/SocketImpl.cpp, which composes all of these: a
-- message goes from a send window by the flow queue and the pacer to the network, and an ack goes to
-- the window, the estimate of the timeout and the controller, which sets the window and the pace.
--
-- `Front` models the map of sockets, net/SocketManager.cpp, and the calls of the user that reach it,
-- hudp/HudpImpl.cpp.
--
-- `LoopBuffer` and `Buffer` model base/LoopBuffer.cpp, a circular buffer of bytes, and
-- base/Buffer.cpp, a chain of them; `MemoryPool` models base/MemoryPool.cpp, whose blocks are
-- addresses and whose `malloc` is a parameter, and `BlockMemoryPool` base/BlockMemoryPool.cpp, which
-- has blocks of one size.
--
-- `MsgPool` models hudp/MsgPoolFactory.cpp, whose free messages are pointers into the store that the
-- timer and the flow control share.
--
-- `TaskQueue` models base/TaskQueue.h, the queue between two threads, and `ProcessThread` models
-- hudp/ProcessThread.cpp, which takes from it what `Front` has pushed.
--
-- Conventions. A method that changes its object returns the new object beside its result. Unsigned
-- words are numbers with their wrap written out; a flag mask is a power of two, tested, set and
-- cleared by `has`, `with_bit` and `without_bit`. Messages are shared objects: queues hold pointers,
-- and a store gives the message behind a pointer. Locks are left out: each modelled method runs as
-- one step, as its mutex makes it. Logging is left out.
--
-- Bounds. The loop of the reliable and orderly list runs on 257 rounds of fuel: it empties a slot
-- in each round, and there are 256 slots.
-- `SendNext` runs on one round more than the queue has messages, since each round takes one out.
-- `run` of the timer takes the number of its rounds; as many as it has expiration times are enough.
-- The stream buffer is the 440 bytes of `__mtu`, which never grows since `__must_less_mtu` is true.
--
-- The search in a circular buffer runs on one round more than there are bytes, since each round
-- passes one; the loop of `Write` on new nodes on one more than the string has bytes, since each node
-- takes one.
--
-- Not modelled: threads, the clock, system calls and logging, which are not this program's logic; the
-- compression filter, glue round another library; the shared pointers base/PoolSharedPtr.h and the
-- calls of Buffer that hand out blocks of memory; and what a parser that fails leaves in its message,
-- so that `Front` has no call for a datagram from the network.
pub mod Bbr
pub mod BitStream
pub mod BlockMemoryPool
pub mod Buffer
pub mod Common
pub mod Config
pub mod FlowQueue
pub mod FlowSlicing
pub mod Front
pub mod IncrementalId
pub mod LoopBuffer
pub mod MemoryPool
pub mod Message
pub mod MinMax
pub mod MsgPool
pub mod OrderList
pub mod Pacing
pub mod PendAck
pub mod PriorityQueue
pub mod ProcessThread
pub mod Rto
pub mod SendWnd
pub mod Serializes
pub mod SocketControl
pub mod SocketImpl
pub mod SocketRecv
pub mod TaskQueue
pub mod Timer
