-- ===== src/Gateway/InternalDebug.antt =====
-- apps/api-gateway/app/routers/internal_debug.py: the operators' view of a graded session, over the
-- rows that the worker writes.
pub mod View
use session_replica_ielt.Prelude.{
  ℕ, String, str_eq, Bool, false, not, ◌||◌, ◌==◌, Option, none, some, List, [], ◌∷◌, length,
  select, if◌then◌else◌,
}
use session_replica_ielt.Gateway.Tables.{SessionStatus, ExamSession, find_session}
use session_replica_ielt.Gateway.Accounts.{unauthorized, not_found, Response, responded, failed}
use session_replica_ielt.Worker.Asr.{Transcript}
use session_replica_ielt.Worker.Jobs
use session_replica_ielt.Worker.Jobs.{GradingJob, JobResult, result_of}
use session_replica_ielt.Worker.Utterances.{order_by_start}

abbrev pub is_header : Option String → String → Bool
is_header none token = false
is_header (some header) token = str_eq header token

-- `_require_internal_token`; `token` is the setting, an empty one if there is none.
unfoldable pub require_internal_token : Option String → String → Response (Unit {0})
require_internal_token header token =
    if str_eq token "" || not (is_header header token) then failed unauthorized else responded tt

-- `jobs_by_name.get(name)`: a later job takes the place of an earlier one.
unfoldable pub job_by_name : String → List GradingJob → Option GradingJob
job_by_name name [] = none
job_by_name name (j ∷ js) = elim (job_by_name name js) [
  | some k ↦ some k
  | none ↦ if str_eq j.task_name name then some j else none
]

-- `result.get("canonical_audio_key")`
abbrev pub audio_key_of : Option JobResult → Option String
audio_key_of none = none
audio_key_of (some (Jobs.media key boundaries duration segments)) = some key
audio_key_of (some (Jobs.transcript word_count key)) = some key
audio_key_of (some _) = none

-- `class SessionDebugResponse`; a word has the columns of its row.
pub record SessionDebugResponse : Type 0 where
  pub session_id : ℕ
  pub status : SessionStatus
  pub finalize_media : Option JobResult
  pub transcribe_full_session : Option JobResult
  pub canonical_audio_key : Option String
  pub word_count : ℕ
  pub words : List Transcript

abbrev pub jobs_of : ℕ → List GradingJob → List GradingJob
jobs_of session_id jobs = select (λ j. j.session_id == session_id) jobs

abbrev pub words_in_order : ℕ → List Transcript → List Transcript
words_in_order session_id transcripts =
    order_by_start (select (λ w. w.session_id == session_id) transcripts)

-- The answer for a session that is there.
unfoldable pub debug_view :
    ExamSession → ℕ → List GradingJob → List Transcript → SessionDebugResponse
unfolding job_by_name
debug_view session session_id jobs transcripts =
    let finalize_result = result_of (job_by_name "finalize_media" (jobs_of session_id jobs)) in
    let words = words_in_order session_id transcripts in
    record {
      session_id = session_id;
      status = session.status;
      finalize_media = finalize_result;
      transcribe_full_session =
          result_of (job_by_name "transcribe_full_session" (jobs_of session_id jobs));
      canonical_audio_key = audio_key_of finalize_result;
      word_count = length words;
      words = words;
    }

abbrev pub view_found :
    Response (Unit {0})
    → Option ExamSession
    → ℕ
    → List GradingJob
    → List Transcript
    → Response SessionDebugResponse
view_found (failed e) session session_id jobs transcripts = failed e
view_found (responded u) none session_id jobs transcripts = failed not_found
view_found (responded u) (some session) session_id jobs transcripts =
    responded (debug_view session session_id jobs transcripts)

-- `get_session_debug`, behind its token.
unfoldable pub get_session_debug :
    Option String
    → String
    → ℕ
    → List ExamSession
    → List GradingJob
    → List Transcript
    → Response SessionDebugResponse
unfolding require_internal_token debug_view
get_session_debug header token session_id sessions jobs transcripts =
    view_found (require_internal_token header token) (find_session session_id sessions) session_id
      jobs transcripts
