-- ===== src/Worker/Media.antt =====
-- apps/worker/tasks/media.py: the turns' recordings are joined into one, and deleted at the end.
-- The audio itself, the FLAC encoding and the object store are parameters: a recording counts by
-- the bytes of its PCM.
pub mod Boundaries
use session_replica_ielt.Prelude.{
  ℕ, zero, suc, ◌+◌, String, Bool, true, false, Option, none, some, List, [], ◌∷◌, ◌++◌, length,
  map, round_ratio,
}
use session_replica_ielt.Worker.Jobs.{
  TurnBoundary, GradingJob, JobResult, media, swept, Ended, returned, raised, deliver,
}

-- A row of `audio_segments`, in the order of `created_at`, and what the store holds under its key:
-- `_extract_pcm16(obj["Body"].read())`, or the error of one of the two calls.
pub record AudioSegment : Type 0 where
  pub turn_id : ℕ
  pub storage_key : String

pub data Fetched : Type 0 where
  pcm16 : List ℕ → Fetched
  missing : String → Fetched

-- `round(len(pcm) / 2 / 16000 * 1000)`: 32 bytes are a millisecond.
unfoldable pub duration_ms_of : List ℕ → ℕ
duration_ms_of pcm = round_ratio (length pcm) 32

-- `pcm_chunks` joined, `turn_boundaries` and `offset_ms`.
pub record Stitched : Type 0 where
  pub combined_pcm : List ℕ
  pub turn_boundaries : List TurnBoundary
  pub offset_ms : ℕ

pub data StitchResult : Type 0 where
  stitched : Stitched → StitchResult
  failed_fetch : String → StitchResult

-- A round of the loop.
unfoldable pub append_segment : AudioSegment → List ℕ → Stitched → Stitched
append_segment segment pcm t =
    let duration_ms = duration_ms_of pcm in
    record {
      combined_pcm = t.combined_pcm ++ pcm;
      turn_boundaries =
          t.turn_boundaries
          ++ record {
            turn_id = segment.turn_id;
            start_ms = t.offset_ms;
            end_ms = t.offset_ms + duration_ms;
          }
            ∷ [];
      offset_ms = t.offset_ms + duration_ms;
    }

unfoldable pub stitch : (String → Fetched) → List AudioSegment → Stitched → StitchResult
unfolding append_segment
stitch get_object [] t = stitched t
stitch get_object (segment ∷ segments) t = elim (get_object segment.storage_key) [
  | pcm16 pcm ↦ stitch get_object segments (append_segment segment pcm t)
  | missing error ↦ failed_fetch error
]

abbrev pub nothing_stitched : Stitched
nothing_stitched = record { combined_pcm = []; turn_boundaries = []; offset_ms = 0 }

-- What follows the loop: the encoded file is put into the store, which may fail.
unfoldable pub store_canonical : (List ℕ → Option String) → String → ℕ → StitchResult → Ended
store_canonical put_flac key segment_count (failed_fetch error) = raised error
store_canonical put_flac key segment_count (stitched t) = elim (put_flac t.combined_pcm) [
  | some error ↦ raised error
  | none ↦ returned (media key t.turn_boundaries t.offset_ms segment_count)
]

-- The body of `finalize_media`: `put_flac` encodes and stores the samples, and gives an error if
-- that fails.
unfoldable pub finalize_media_body :
    (String → Fetched) → (List ℕ → Option String) → String → List AudioSegment → Ended
unfolding stitch store_canonical
finalize_media_body get_object put_flac key [] = raised "no audio_segments found"
finalize_media_body get_object put_flac key (segment ∷ segments) =
    store_canonical put_flac key (length (segment ∷ segments))
      (stitch get_object (segment ∷ segments) nothing_stitched)

-- `finalize_media`
unfoldable pub finalize_media :
    (String → Fetched)
    → (List ℕ → Option String)
    → String
    → List AudioSegment
    → ℕ
    → ℕ
    → List GradingJob
    → List GradingJob
unfolding finalize_media_body
finalize_media get_object put_flac key segments now session_id js =
    deliver now session_id "finalize_media" (finalize_media_body get_object put_flac key segments)
      js

-- `_delete_raw_audio_segments`: the pages that the store lists, and the keys deleted.
unfoldable pub deleted_keys : List (List String) → List String
deleted_keys [] = []
deleted_keys (page ∷ pages) = page ++ deleted_keys pages

-- The body of `sweep_expired_raw_audio`: the pages that the store lists under the prefix, all of
-- them deleted, or the error of a call.
unfoldable pub sweep_body : String → String → Option (List (List String)) → Ended
unfolding deleted_keys
sweep_body prefix error none = raised error
sweep_body prefix error (some pages) = returned (swept (length (deleted_keys pages)) prefix)

-- `sweep_expired_raw_audio`
unfoldable pub sweep_expired_raw_audio :
    String → String → Option (List (List String)) → ℕ → ℕ → List GradingJob → List GradingJob
unfolding sweep_body
sweep_expired_raw_audio prefix error pages now session_id js =
    deliver now session_id "sweep_expired_raw_audio" (sweep_body prefix error pages) js
