-- ===== src/Rtp.antt =====
-- backend/core/realtime_protection.py: the watcher that judges and stops new processes.
pub mod Trust
pub mod Plan
pub mod Decide
pub mod Guardrails
pub mod Processes
pub mod Enforce
pub mod Kills
pub mod Judged
pub mod Agreement
pub mod Whitelist
pub mod Cache
pub mod Scan
pub mod Watch
pub mod Polling
pub mod Coherence
pub mod Seen
mod Tests
