-- ===== src/Cancel.antt =====
-- monolake-services/src/common/cancel: a waker list in a vector, and cancellation on top of it.
pub mod LinkedList
pub mod Canceller
mod Examples
