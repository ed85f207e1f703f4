-- ===== src/Worker/Lexical.antt =====
-- apps/worker/tasks/nlp/lexical.py
pub mod Diversity
pub mod Walks
pub mod Bounds
pub mod Metrics
pub mod Bands
