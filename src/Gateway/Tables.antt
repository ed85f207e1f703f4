-- ===== src/Gateway/Tables.antt =====
-- The gateway's rows (apps/api-gateway/app/models). An identifier (a UUID or a serial) is a number,
-- since the code only compares identifiers; timestamps that the database fills in are left out.
pub mod Laws
use session_replica_ielt.Prelude.{
  ℕ, String, Bool, Option, none, some, List, [], ◌∷◌, ◌==◌, if◌then◌else◌, map,
}
use session_replica_ielt.Prelude.Dict.{Dict}

-- `class ExamSessionEvent`
pub record ExamSessionEvent : Type 0 where
  pub session_id : ℕ
  pub seq : ℕ
  pub event_type : String
  pub payload : Dict String

-- `class SessionStatus`
pub data SessionStatus : Type 0 where
  created active disconnected aborted completed : SessionStatus

-- `class ExamSession`
pub record ExamSession : Type 0 where
  pub id : ℕ
  pub candidate_id : ℕ
  pub status : SessionStatus
  pub current_phase : Option String
  pub resume_token : ℕ
  pub gemini_resumption_handle : Option String
  pub cue_card_id : Option ℕ
  pub topic_set_ids : Option (Dict ℕ)

-- `class Candidate`, `class CueCard` and `class TopicSet`, with the columns that the code reads.
pub record Candidate : Type 0 where
  pub id : ℕ
  pub email : String
  pub full_name : String
  pub previous_topic_sets : List ℕ

pub record CueCard : Type 0 where
  pub id : ℕ
  pub topic : String
  pub bullets : List String
  pub linked_part3_themes : List String
  pub active : Bool

pub record TopicSet : Type 0 where
  pub id : ℕ
  pub slot : String
  pub title : String
  pub questions : List String
  pub active : Bool

pub record Db : Type 0 where
  pub sessions : List ExamSession
  pub events : List ExamSessionEvent
  pub candidates : List Candidate
  pub cue_cards : List CueCard
  pub topic_sets : List TopicSet

-- `db.get(ExamSession, id)`
unfoldable pub find_session : ℕ → List ExamSession → Option ExamSession
find_session i [] = none
find_session i (s ∷ ss) = if s.id == i then some s else find_session i ss

-- The attributes set on a loaded row reach the table at the commit.
unfoldable pub update_session :
    ℕ → (ExamSession → ExamSession) → List ExamSession → List ExamSession
update_session i f [] = []
update_session i f (s ∷ ss) = if s.id == i then f s ∷ ss else s ∷ update_session i f ss

unfoldable pub find_candidate : ℕ → List Candidate → Option Candidate
find_candidate i [] = none
find_candidate i (c ∷ cs) = if c.id == i then some c else find_candidate i cs

unfoldable pub update_candidate : ℕ → (Candidate → Candidate) → List Candidate → List Candidate
update_candidate i f [] = []
update_candidate i f (c ∷ cs) = if c.id == i then f c ∷ cs else c ∷ update_candidate i f cs
