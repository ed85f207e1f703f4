-- ===== src/Worker/Jobs.antt =====
-- The bookkeeping of a grading run: `GradingJob` of apps/worker/models.py, and
-- apps/worker/job_status.py. Times are seconds of the clock that the caller reads.
pub mod Runs
use session_replica_ielt.Prelude.{
  ℕ, suc, ◌+◌, String, Bool, true, false, ◌&&◌, Option, none, some, List, [], ◌∷◌, ◌++◌, ◌==◌,
  str_eq, if◌then◌else◌,
}

pub data GradingJobStatus : Type 0 where
  queued running succeeded failed : GradingJobStatus

-- An entry of `turn_boundaries`.
pub record TurnBoundary : Type 0 where
  pub turn_id : ℕ
  pub start_ms : ℕ
  pub end_ms : ℕ

-- What a task leaves in `result`.
pub data JobResult : Type 0 where
  media :
      (canonical_audio_key : String)
      → (turn_boundaries : List TurnBoundary) → (duration_ms segment_count : ℕ) → JobResult
  transcript : (word_count : ℕ) → (canonical_audio_key : String) → JobResult
  swept : (deleted_count : ℕ) → (prefix : String) → JobResult
  scores : (overall_band : ℕ) → (flag_for_human_review : Bool) → JobResult

pub record GradingJob : Type 0 where
  pub session_id : ℕ
  pub task_name : String
  pub status : GradingJobStatus
  pub attempt : ℕ
  pub error : Option String
  pub result : Option JobResult
  pub started_at : Option ℕ
  pub finished_at : Option ℕ

abbrev pub is_job : ℕ → String → GradingJob → Bool
is_job s task_name j = (j.session_id == s) && str_eq j.task_name task_name

-- `select(GradingJob).where(...)`
unfoldable pub find_job : ℕ → String → List GradingJob → Option GradingJob
find_job s name [] = none
find_job s name (j ∷ js) = if is_job s name j then some j else find_job s name js

-- `insert ... on conflict (session_id, task_name) do update`: the row of the key is changed, or the
-- new one is added.
unfoldable pub upsert : GradingJob → (GradingJob → GradingJob) → List GradingJob → List GradingJob
upsert new change [] = new ∷ []
upsert new change (j ∷ js) =
    if is_job new.session_id new.task_name j then change j ∷ js else j ∷ upsert new change js

-- The row that `mark_running` inserts, and the one that it leaves on a conflict.
abbrev pub first_run : ℕ → ℕ → String → GradingJob
first_run now s name = record {
  session_id = s;
  task_name = name;
  status = running;
  attempt = 1;
  error = none;
  result = none;
  started_at = some now;
  finished_at = none;
}

abbrev pub run_again : ℕ → GradingJob → GradingJob
run_again now j = record j {
  status = running;
  started_at = some now;
  attempt = j.attempt + 1;
  error = none;
}

unfoldable pub mark_running : ℕ → ℕ → String → List GradingJob → List GradingJob
unfolding upsert
mark_running now s name = upsert (first_run now s name) (run_again now)

unfoldable pub mark_succeeded : ℕ → ℕ → String → JobResult → List GradingJob → List GradingJob
unfolding upsert
mark_succeeded now s name result =
    upsert
      (record {
        session_id = s;
        task_name = name;
        status = succeeded;
        attempt = 1;
        error = none;
        result = some result;
        started_at = none;
        finished_at = some now;
      })
      (λ j. record j {
        status = succeeded;
        result = some result;
        error = none;
        finished_at = some now;
      })

unfoldable pub mark_failed : ℕ → ℕ → String → String → List GradingJob → List GradingJob
unfolding upsert
mark_failed now s name error =
    upsert
      (record {
        session_id = s;
        task_name = name;
        status = failed;
        attempt = 1;
        error = some error;
        result = none;
        started_at = none;
        finished_at = some now;
      })
      (λ j. record j { status = failed; error = some error; finished_at = some now })

abbrev pub result_of : Option GradingJob → Option JobResult
result_of none = none
result_of (some job) = job.result

unfoldable pub load_result : ℕ → String → List GradingJob → Option JobResult
unfolding find_job
load_result s name js = result_of (find_job s name js)

-- How a task's body ends.
pub data Ended : Type 0 where
  returned : JobResult → Ended
  raised : String → Ended

-- A delivery of a task: `mark_running`, the body, and `mark_succeeded`, or `mark_failed` before the
-- retry.
unfoldable pub finish : ℕ → ℕ → String → Ended → List GradingJob → List GradingJob
finish now s name (returned result) js = mark_succeeded now s name result js
finish now s name (raised error) js = mark_failed now s name error js

unfoldable pub deliver : ℕ → ℕ → String → Ended → List GradingJob → List GradingJob
unfolding mark_running finish
deliver now s name ended js = finish now s name ended (mark_running now s name js)
