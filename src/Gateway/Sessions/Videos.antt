-- ===== src/Gateway/Sessions/Videos.antt =====
-- An upload and its confirmation (apps/api-gateway/app/routers/sessions.py).
use session_replica_ielt.Prelude.{ℕ, ◌<◌, ◌≡◌, ◌==◌, List, All, false}
use session_replica_ielt.Gateway.Sessions.{VideoSegment, Upload, pending_segment}

-- The other rows: of other ids, and older.
abbrev pub Older : ℕ → ℕ → List VideoSegment → Type 0
Older id now videos =
    All (λ (v : VideoSegment). ((v.id == id) ≡ false) × (v.created_at < now)) videos

-- The segment that the newest upload address is for.
abbrev pub issued : (ℕ → Upload) → ℕ → ℕ → ℕ → VideoSegment
issued create_video_upload_url id now session_id =
    pending_segment id now session_id (create_video_upload_url session_id).storage_key
