-- ===== src/Gateway/InternalDebug/View.antt =====
-- Who sees a graded session, and what (apps/api-gateway/app/routers/internal_debug.py).
use mathlib.Core.List.{Permᴰ}
use mathlib.Core.List.Permᴰ
use session_replica_ielt.Prelude.{
  ℕ, ◌≤◌, ◌≡◌, ◌≢◌, refl, ap, inl, inr, ◌==◌, leb, String, str_eq_iff, Option, none, some, List, [],
  ◌∷◌, length, select, arith, Bool-cases,
}
use session_replica_ielt.Gateway.Tables.{ExamSession, find_session}
use session_replica_ielt.Gateway.Accounts.{unauthorized, responded, failed}
use session_replica_ielt.Gateway.InternalDebug.{
  require_internal_token, job_by_name, jobs_of, debug_view, get_session_debug, SessionDebugResponse,
}
use session_replica_ielt.Worker.Asr.{Transcript}
use session_replica_ielt.Worker.Jobs.{GradingJob, find_job, load_result, result_of}
use session_replica_ielt.Worker.Jobs.Runs.{count_jobs}
use session_replica_ielt.Worker.Utterances.{insert_by_start, order_by_start}

job_by_name-none :
    (s : ℕ) (name : String) (js : List GradingJob)
    → count_jobs s name js ≡ 0
    → job_by_name name (jobs_of s js) ≡ none
unfolding job_by_name
job_by_name-none s name [] h = refl
job_by_name-none s name (j ∷ js) h = ground (arith, job_by_name-none s name js)

-- With at most one row of the key, the dict has that row.
job_by_name-find_job :
    (s : ℕ) (name : String) (js : List GradingJob)
    → count_jobs s name js ≤ 1
    → job_by_name name (jobs_of s js) ≡ find_job s name js
unfolding job_by_name find_job
job_by_name-find_job s name [] h = refl
job_by_name-find_job s name (j ∷ js) h =
    ground (arith, job_by_name-none s name js, job_by_name-find_job s name js)

-- The words start one after the other, from `lo` on.
abbrev pub Rising : ℕ → List Transcript → Type 0
Rising lo [] = Unit
Rising lo (w ∷ words) = (lo ≤ w.start_ms) × Rising w.start_ms words

insert_by_start-Rising :
    (lo : ℕ) (r : Transcript) (words : List Transcript)
    → lo ≤ r.start_ms
    → Rising lo words
    → Rising lo (insert_by_start r words)
unfolding insert_by_start
insert_by_start-Rising lo r [] h rising = (h, tt)
insert_by_start-Rising lo r (w ∷ words) h rising = elim (Bool-cases (leb r.start_ms w.start_ms)) [
  | inl before ↦ rw before (h, (ground (arith, before), rising.1))
  | inr behind ↦
      rw behind
        (rising.0, insert_by_start-Rising w.start_ms r words (ground (arith, behind)) rising.1)
]

order_by_start-Rising : (words : List Transcript) → Rising 0 (order_by_start words)
unfolding order_by_start
order_by_start-Rising [] = tt
order_by_start-Rising (w ∷ words) =
    insert_by_start-Rising 0 w (order_by_start words) (omega arith) (order_by_start-Rising words)

insert_by_start-Permᴰ :
    (r : Transcript) (words : List Transcript) → Permᴰ (insert_by_start r words) (r ∷ words)
unfolding insert_by_start
insert_by_start-Permᴰ r [] = Permᴰ.refl (r ∷ [])
insert_by_start-Permᴰ r (w ∷ words) = elim (Bool-cases (leb r.start_ms w.start_ms)) [
  | inl before ↦ rw before (Permᴰ.refl (r ∷ w ∷ words))
  | inr behind ↦
      rw behind
        (Permᴰ.trans (Permᴰ.cons refl (insert_by_start-Permᴰ r words)) (Permᴰ.swap refl refl))
]

order_by_start-Permᴰ : (words : List Transcript) → Permᴰ (order_by_start words) words
unfolding order_by_start
order_by_start-Permᴰ [] = Permᴰ.nil
order_by_start-Permᴰ (w ∷ words) =
    Permᴰ.trans (insert_by_start-Permᴰ w (order_by_start words))
      (Permᴰ.cons refl (order_by_start-Permᴰ words))

token_let_in :
    (token : String) → token ≢ "" → require_internal_token (some token) token ≡ responded tt
unfolding require_internal_token
token_let_in token set = ground (arith, set, str_eq_iff token token, str_eq_iff token "")

token_kept_out :
    (header : Option String) (token : String)
    → header ≢ some token
    → require_internal_token header token ≡ failed unauthorized
unfolding require_internal_token
token_kept_out none token other = ground arith
token_kept_out (some given) token other = ground (arith, str_eq_iff given token, other)

module _ (token : String) (set : token ≢ "") (s : ℕ) (sessions : List ExamSession)
    (jobs : List GradingJob) (transcripts : List Transcript) {session : ExamSession}
    (found : find_session s sessions ≡ some session)
    (one_media : count_jobs s "finalize_media" jobs ≤ 1)
    (one_transcription : count_jobs s "transcribe_full_session" jobs ≤ 1) where
  -- If the token is set, the session is there and each of the two tasks has at most one row, the
  -- header with the token gets the results that the worker loads, and the session's words in the
  -- order of their starts; any other header gets nothing.
  pub get_session_debug_shows :
      ((r : SessionDebugResponse) × (get_session_debug
            (some token)
            token
            s
            sessions
            jobs
            transcripts
          ≡ responded r)
        × (r.finalize_media ≡ load_result s "finalize_media" jobs)
        × (r.transcribe_full_session ≡ load_result s "transcribe_full_session" jobs)
        × Permᴰ r.words (select (λ w. w.session_id == s) transcripts)
        × Rising 0 r.words
        × (r.word_count ≡ length r.words))
      × ((header : Option String)
          → header ≢ some token
          → get_session_debug header token s sessions jobs transcripts ≡ failed unauthorized)
  unfolding get_session_debug debug_view load_result
  get_session_debug_shows = (
    (
      debug_view session s jobs transcripts,
      rw (token_let_in token set, found, get_session_debug) refl,
      ap result_of (job_by_name-find_job s "finalize_media" jobs one_media),
      ap result_of (job_by_name-find_job s "transcribe_full_session" jobs one_transcription),
      order_by_start-Permᴰ (select (λ w. w.session_id == s) transcripts),
      order_by_start-Rising (select (λ w. w.session_id == s) transcripts),
      refl,
    ),
    λ header other. rw (token_kept_out header token other, get_session_debug) refl,
  )
