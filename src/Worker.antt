-- ===== src/Worker.antt =====
-- apps/worker: the grading of a completed session.
pub mod Judge
pub mod Reconciliation
pub mod Jobs
pub mod Media
pub mod Asr
pub mod Utterances
pub mod Scoring
pub mod Features
pub mod Transcription
pub mod Pronunciation
pub mod Calibration
pub mod Parse
pub mod Checker
pub mod Grammar
pub mod Lexicons
pub mod Syllables
pub mod Fluency
pub mod Lexical
