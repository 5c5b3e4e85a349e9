-- ===== src/Workers.antt =====
-- backend/core/workers.py: the cancellable worker and the watchdog that waits for heartbeats. The
-- children: the worker's run (Task), what the watchdog does (Watchdog), which workers it reports
-- (Stalled), and what holds of it at any time (Reachable).
pub mod Task
pub mod Watchdog
pub mod Stalled
pub mod Reachable
mod Tests
