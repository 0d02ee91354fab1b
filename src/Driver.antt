-- ===== src/Driver.antt =====
-- The driver of tamer/dtamer.cc and the sets of descriptors that it keeps.
pub mod PollFds
pub mod FdSet
pub mod Interest
pub mod Loop
mod Tests
