-- ===== src/Queue.antt =====
-- Package queue: jobs run in the background (queue/).
pub mod Job
pub mod Handler
pub mod Kind
pub mod Clock
pub mod Memory
pub mod Schedule
pub mod Worker
