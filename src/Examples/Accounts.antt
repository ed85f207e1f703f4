-- ===== src/Examples/Accounts.antt =====
-- Logins, sessions and uploads, tried on concrete inputs.
use mathlib.Core.List.{Permᴰ}
use session_replica_ielt.Prelude.{ap, not, str_eq, Bool, true}
use session_replica_ielt.Prelude.{
  ◌≢◌, length, select, ℕ, ◌+◌, ◌*◌, ◌≤◌, ◌≡◌, refl, ◌==◌, false, leb, if◌then◌else◌, String, Option,
  none, some, [], ◌∷◌, arith,
}
use session_replica_ielt.Fsm
use session_replica_ielt.Fsm.{ExamPhase, ExamEvent, initial_phase, reached}
use session_replica_ielt.Gateway.Exceptions.{ok}
use session_replica_ielt.Gateway.Tables.{Candidate, find_session, find_candidate}
use session_replica_ielt.Gateway.Engine.{get_current_phase, transition}
use session_replica_ielt.Gateway.Engine.Log.{log}
use session_replica_ielt.Gateway.Accounts.{
  policy_violation, not_found, unauthorized, responded, failed, LoginResponse, issue_access_token,
  login, get_current_candidate,
}
use session_replica_ielt.Gateway.Accounts.Login.{login_authenticates}
use session_replica_ielt.Gateway.Sessions.{Upload, create_session, get_session}
use session_replica_ielt.Gateway.Sessions.Creation.{created_db, create_session_starts}
use session_replica_ielt.Gateway.InternalDebug.{SessionDebugResponse, get_session_debug}
use session_replica_ielt.Gateway.InternalDebug.View.{Rising, get_session_debug_shows}
use session_replica_ielt.Worker.Asr.{Transcript}
use session_replica_ielt.Worker.Jobs
use session_replica_ielt.Worker.Jobs.{GradingJob, load_result}
use session_replica_ielt.Gateway.Settings.{default_settings}
use session_replica_ielt.Gateway.Orchestrator.State.{State}
use session_replica_ielt.Gateway.Relay.{resumption_update, on_gemini_event}
use session_replica_ielt.Gateway.Relay.Connection.{authenticate}
use session_replica_ielt.Gateway.Relay.Connection.Handles.{handle_resumes}
use session_replica_ielt.Examples.{fresh, anna, fresh_db}

-- A token is its subject and its time of expiry.
abbrev sign : ℕ → ℕ → ℕ × ℕ
sign i expires_at = (i, expires_at)

abbrev verify : ℕ → ℕ × ℕ → Option ℕ
verify now (i, expires_at) = if leb now expires_at then some i else none

verify-sign : (i expires_at now : ℕ) → now ≤ expires_at → verify now (sign i expires_at) ≡ some i
verify-sign i expires_at now h = ground (arith, h)

login_authenticates_example :
    let (result, after) = login sign 60 1000 4 "ben@example.org" "Ben" fresh_db in
    (r : LoginResponse (ℕ × ℕ)) × (result ≡ ok r)
    × ((c : Candidate) × (c.email ≡ "ben@example.org")
        × (c.id ≡ r.candidate_id)
        × ((t : ℕ)
            → t ≤ 1000 + 60000 * 60
            → get_current_candidate verify t r.access_token after ≡ responded c))
    × ((later id' : ℕ) (name : String)
        → login sign 60 later id' "ben@example.org" name after ≡ (
          ok (record {
            access_token = issue_access_token sign 60 later r.candidate_id;
            candidate_id = r.candidate_id;
          }),
          after,
        ))
unfolding find_candidate
login_authenticates_example =
    login_authenticates sign verify 60 verify-sign 1000 4 "ben@example.org" "Ben" fresh_db (tt, tt)
      refl

abbrev show : ℕ → String
show i = if i == 3 then "3" else "?"

unused : find_session 2 fresh_db.sessions ≡ none
unfolding find_session
unused = refl

create_session_starts_example :
    (get_current_phase (created_db show anna 2 99 fresh_db) 2 ≡ ok initial_phase)
    × ((e : ExamEvent) (reason : String) (q : ExamPhase)
        → Fsm.transition initial_phase e ≡ reached q
        → (transition (created_db show anna 2 99 fresh_db) 2 e reason []).0 ≡ ok q)
    × (get_session 2 anna (created_db show anna 2 99 fresh_db)
        ≡ responded (create_session show anna 2 99 fresh_db).0)
    × ((c : Candidate)
        → (anna.id == c.id) ≡ false
        → get_session 2 c (created_db show anna 2 99 fresh_db) ≡ failed not_found)
    × ((j : ℕ)
        → (2 == j) ≡ false
        → (find_session j (created_db show anna 2 99 fresh_db).sessions
            ≡ find_session j fresh_db.sessions)
          × (log (created_db show anna 2 99 fresh_db) j ≡ log fresh_db j))
create_session_starts_example = create_session_starts show anna 2 99 fresh_db unused refl

abbrev address : ℕ → Upload
address i = record { upload_url = "https://store/put"; storage_key = "raw-video/full.webm" }

abbrev finalized : GradingJob
finalized = record {
  session_id = 1;
  task_name = "finalize_media";
  status = Jobs.succeeded;
  attempt = 1;
  error = none;
  result = some (Jobs.media "audio/1.flac" [] 900 2);
  started_at = some 5;
  finished_at = some 9;
}

abbrev heard : ℕ → ℕ → Transcript
heard seq start_ms = record {
  session_id = 1;
  turn_id = 4;
  seq = seq;
  word = "so";
  start_ms = start_ms;
  end_ms = start_ms + 100;
  confidence = 900;
  speaker = "candidate";
  source = "deepgram";
}

abbrev is_set : String → Bool
is_set token = not (str_eq token "")

abbrev ops : String
ops = "ops"

ops_set : ops ≢ ""
ops_set = λ e. cc (let t : true ≡ false = ap is_set e in t)

get_session_debug_shows_example :
    ((r : SessionDebugResponse) × (get_session_debug
          (some "ops")
          "ops"
          1
          fresh_db.sessions
          (finalized ∷ [])
          (heard 1 300 ∷ heard 0 100 ∷ [])
        ≡ responded r)
      × (r.finalize_media ≡ load_result 1 "finalize_media" (finalized ∷ []))
      × (r.transcribe_full_session ≡ load_result 1 "transcribe_full_session" (finalized ∷ []))
      × Permᴰ r.words (select (λ w. w.session_id == 1) (heard 1 300 ∷ heard 0 100 ∷ []))
      × Rising 0 r.words
      × (r.word_count ≡ length r.words))
    × ((header : Option String)
        → header ≢ some "ops"
        → get_session_debug header "ops" 1 fresh_db.sessions
            (finalized ∷ [])
            (heard 1 300 ∷ heard 0 100 ∷ [])
          ≡ failed unauthorized)
unfolding find_session
get_session_debug_shows_example =
    get_session_debug_shows "ops" ops_set 1 fresh_db.sessions (finalized ∷ [])
      (heard 1 300 ∷ heard 0 100 ∷ []) refl (omega arith) (omega arith)

-- The session after Gemini's handle.
abbrev resumable : State
resumable = (on_gemini_event default_settings (resumption_update true "handle-1") fresh).1

handle_resumes_example :
    (verify 5 (sign 3 10) ≡ some 3
      → authenticate verify 5 (sign 3 10) 1 resumable.db ≡ responded (some "handle-1"))
    × (verify 5 (sign 3 10) ≢ some 3
        → authenticate verify 5 (sign 3 10) 1 resumable.db ≡ failed policy_violation)
unfolding find_session
handle_resumes_example = handle_resumes verify default_settings "handle-1" fresh refl 5 (sign 3 10)
