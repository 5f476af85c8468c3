-- ===== src/Pool.antt =====
-- The session pool of core/joshua_core/engine/manager.py. A turn takes its session from the pool
-- under the pool's lock, then waits for the session's own lock: between the two, anything may
-- happen to the pool, so a `Managed` is an object with a reference of its own. The files and
-- profiles that a build reads, and what the agent answers, are parts of the events.
mod Defs
mod Steps
pub mod Running
pub mod Orphans
pub mod Roles
mod Tests
pub use Defs.{Session, Conversation, Managed, Pool, Settings, Build, Outcome, Section, new_pool}
pub use Steps.{Event}
pub use Defs.{answered, raised, timed_out, cancelled}
pub use Steps.{start_turn, take_lock, end_turn, go_on, reap, flush, close_flushed}
