-- ===== src/Worker/Scoring/Reports.antt =====
-- What a scoring run reports (apps/worker/tasks/scoring.py).
