-- ===== src/Worker/Grammar.antt =====
-- apps/worker/tasks/nlp/grammar.py
pub mod TUnits
pub mod Heads
pub mod Closure
pub mod Structure
pub mod Metrics
pub mod Totals
