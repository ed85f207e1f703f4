-- ===== src/Gateway/Sessions.antt =====
-- apps/api-gateway/app/routers/sessions.py: a candidate's sessions, and the pointers to their
-- proctoring videos. The presigned address is that of the object store, a parameter; an id, a time of
-- creation and a resume token are drawn by the database and the library, and are arguments.
pub mod Creation
pub mod Videos
use session_replica_ielt.Prelude.{
  ℕ, String, ltb, ◌==◌, Bool, Option, none, some, List, [], ◌∷◌, ◌++◌, map, select, if◌then◌else◌,
}
use session_replica_ielt.Gateway.Tables.{
  SessionStatus, created, ExamSession, ExamSessionEvent, Candidate, Db, find_session,
}
use session_replica_ielt.Gateway.Accounts.{not_found, Response, responded, failed}

-- `class SessionResponse`
pub record SessionResponse : Type 0 where
  pub id : ℕ
  pub status : SessionStatus
  pub current_phase : Option String
  pub resume_token : ℕ

abbrev pub response_of : ExamSession → SessionResponse
response_of s = record {
  id = s.id;
  status = s.status;
  current_phase = s.current_phase;
  resume_token = s.resume_token;
}

-- The row that `create_session` adds, and its first event.
abbrev pub new_session : Candidate → ℕ → ℕ → ExamSession
new_session candidate id resume_token = record {
  id = id;
  candidate_id = candidate.id;
  status = created;
  current_phase = none;
  resume_token = resume_token;
  gemini_resumption_handle = none;
  cue_card_id = none;
  topic_set_ids = none;
}

abbrev pub created_event : (ℕ → String) → Candidate → ℕ → ExamSessionEvent
created_event show candidate id = record {
  session_id = id;
  seq = 1;
  event_type = "SESSION_CREATED";
  payload = ("candidate_id", show candidate.id) ∷ [];
}

-- `create_session`; `show` is the text of an id.
unfoldable pub create_session : (ℕ → String) → Candidate → ℕ → ℕ → Db → SessionResponse × Db
create_session show candidate id resume_token db = (
  response_of (new_session candidate id resume_token),
  record db {
    sessions = db.sessions ++ new_session candidate id resume_token ∷ [];
    events = db.events ++ created_event show candidate id ∷ [];
  },
)

-- `if session is None or session.candidate_id != candidate.id: raise`
unfoldable pub owned : Candidate → Option ExamSession → Response ExamSession
owned candidate none = failed not_found
owned candidate (some s) = if s.candidate_id == candidate.id then responded s else failed not_found

abbrev pub and_respond : {A B : Type 0} → Response A → (A → B) → Response B
and_respond (responded a) f = responded (f a)
and_respond (failed e) f = failed e

-- `get_session`
unfoldable pub get_session : ℕ → Candidate → Db → Response SessionResponse
unfolding owned
get_session session_id candidate db =
    and_respond (owned candidate (find_session session_id db.sessions)) response_of

-- `class VideoSegmentStatus` and `class VideoSegment`
pub data VideoSegmentStatus : Type 0 where
  pending uploaded : VideoSegmentStatus

pub record VideoSegment : Type 0 where
  pub id : ℕ
  pub session_id : ℕ
  pub storage_key : String
  pub status : VideoSegmentStatus
  pub created_at : ℕ

pub record Upload : Type 0 where
  pub upload_url : String
  pub storage_key : String

abbrev pub pending_segment : ℕ → ℕ → ℕ → String → VideoSegment
pending_segment id now session_id storage_key = record {
  id = id;
  session_id = session_id;
  storage_key = storage_key;
  status = pending;
  created_at = now;
}

abbrev pub with_upload :
    Response ExamSession
    → VideoSegment
    → Upload
    → List VideoSegment
    → Response Upload × List VideoSegment
with_upload (failed e) v upload videos = (failed e, videos)
with_upload (responded s) v upload videos = (responded upload, videos ++ v ∷ [])

-- `get_video_upload_url`; `create_video_upload_url` is that of the store.
unfoldable pub get_video_upload_url :
    (ℕ → Upload)
    → ℕ
    → ℕ
    → ℕ
    → Candidate
    → Db
    → List VideoSegment
    → Response Upload × List VideoSegment
unfolding owned
get_video_upload_url create_video_upload_url id now session_id candidate db videos =
    with_upload (owned candidate (find_session session_id db.sessions))
      (pending_segment id now session_id (create_video_upload_url session_id).storage_key)
      (create_video_upload_url session_id) videos

-- `ORDER BY created_at DESC LIMIT 1`; of two rows of one time, the earlier in the table.
abbrev pub newer : VideoSegment → Option VideoSegment → Option VideoSegment
newer v none = some v
newer v (some w) = if ltb v.created_at w.created_at then some w else some v

unfoldable pub newest : List VideoSegment → Option VideoSegment
newest [] = none
newest (v ∷ videos) = newer v (newest videos)

-- `video_segment.status = UPLOADED`
abbrev pub mark_uploaded : ℕ → VideoSegment → VideoSegment
mark_uploaded id v = if v.id == id then record v { status = uploaded } else v

abbrev pub of_video_session : ℕ → VideoSegment → Bool
of_video_session session_id v = v.session_id == session_id

abbrev pub confirmed :
    Option VideoSegment → List VideoSegment → Response (Unit {0}) × List VideoSegment
confirmed none videos = (failed not_found, videos)
confirmed (some v) videos = (responded tt, map (mark_uploaded v.id) videos)

abbrev pub confirm_owned :
    Response ExamSession → ℕ → List VideoSegment → Response (Unit {0}) × List VideoSegment
confirm_owned (failed e) session_id videos = (failed e, videos)
confirm_owned (responded s) session_id videos =
    confirmed (newest (select (of_video_session session_id) videos)) videos

-- `confirm_video_upload`
unfoldable pub confirm_video_upload :
    ℕ → Candidate → Db → List VideoSegment → Response (Unit {0}) × List VideoSegment
unfolding owned newest
confirm_video_upload session_id candidate db videos =
    confirm_owned (owned candidate (find_session session_id db.sessions)) session_id videos
