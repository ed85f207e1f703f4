-- ===== src/Worker/Fluency.antt =====
-- apps/worker/tasks/nlp/fluency.py
pub mod Breaks
pub mod Metrics
pub mod Pauses
pub mod Placement
