-- ===== src/Gateway/Orchestrator.antt =====
-- apps/api-gateway/app/services/exam_orchestrator.py: the driver of one connection's exam.
pub mod State
pub mod Advance
pub mod Triggers
pub mod Watchdogs
pub mod Lifecycle
pub mod Coherence
pub mod Steps
pub mod Agreement
pub mod Moves
pub mod Resume
pub mod Lapsed
pub mod Turns
pub mod Timeouts
pub mod Silence
