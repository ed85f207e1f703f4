-- ===== src/Fsm.antt =====
-- packages/exam-fsm: the exam's state machine.
mod Defs
pub mod Path
unfoldable pub use Defs.*
