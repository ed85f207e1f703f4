-- ===== src/Worker/Pronunciation.antt =====
-- apps/worker/tasks/pronunciation.py and providers/pronunciation.py
pub mod Segments
pub mod Scores
pub mod Means
