-- ===== src/Gateway/Relay/Connection.antt =====
-- apps/api-gateway/app/routers/ws_exam.py, `_authenticate`: who may connect to a session, and the
-- handle by which Gemini's context is resumed. The token library's `verify` is a parameter.
pub mod Handles
use session_replica_ielt.Prelude.{ℕ, String, ◌==◌, Option, none, some, if◌then◌else◌}
use session_replica_ielt.Gateway.Tables.{ExamSession, Db, find_session}
use session_replica_ielt.Gateway.Accounts.{policy_violation, Response, responded, failed}

-- The session's test and its handle.
abbrev pub handle_for : ℕ → Option ExamSession → Response (Option String)
handle_for candidate_id none = failed policy_violation
handle_for candidate_id (some s) =
    if s.candidate_id == candidate_id
    then responded s.gemini_resumption_handle
    else failed policy_violation

-- `_authenticate`
unfoldable pub authenticate :
    {Token : Type 0} → (ℕ → Token → Option ℕ) → ℕ → Token → ℕ → Db → Response (Option String)
authenticate verify now token session_id db = elim (verify now token) [
  | none ↦ failed policy_violation
  | some candidate_id ↦ handle_for candidate_id (find_session session_id db.sessions)
]
