-- ===== src/Worker/Calibration.antt =====
-- apps/worker: the calibration of the judge against human raters.
pub mod Metrics
pub mod Kappa
pub mod Corpus
pub mod Report
pub mod DryRun
