-- ===== src/Orchestrator.antt =====
-- monolake-core/src/orchestrator: the services of one worker thread, and the commands on them.
pub mod Executor
pub mod Workers
pub mod Serve
mod Runtime
mod Spawn
mod Examples
