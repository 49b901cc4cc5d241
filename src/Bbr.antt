-- ===== src/Bbr.antt =====
-- The congestion controller of net/controller/bbr/bbr.h and net/controller/bbr/bbr.cpp, a part to
-- each module: `Block` has its state and constants, `Rate` the pacing rate, `Window` the size of the
-- send window, `Cycle` the modes and the gain cycle, `LongTerm` the long-term samples, `Model` what
-- is updated by an ack, and `Main` the call that drives it all. The other modules prove.
--
-- `GetCurTimeStamp()` is called up to five times by one update; the clock is a function that gives
-- the answer of each of these calls.
pub mod Block
pub mod Rate
pub mod Window
pub mod Cycle
pub mod LongTerm
pub mod Model
pub mod Main
pub mod Sampling
pub mod Starting
pub mod Runs
pub mod Bounds
pub mod Reachable
pub mod Idle
pub mod Stuck
pub mod Zeroed
mod Tests
