-- ===== src/Worker/Pronunciation/Means.antt =====
-- The means of the turns' scores, and what the task writes (apps/worker/tasks/pronunciation.py).
use session_replica_ielt.Prelude.{
  ℕ, ◌+◌, ◌*◌, ◌≤◌, ◌≡◌, ◌≢◌, refl, ap, inl, inr, ◌⊎◌, ◌↔◌, Bool, true, false, String, Option, none,
  some, List, [], ◌∷◌, length, All, if◌then◌else◌, round_ratio_ge, round_ratio_le, arith,
  Option-cases, str_eq,
}
use session_replica_ielt.Prelude.Text.{Word}
use session_replica_ielt.Worker.Judge
use session_replica_ielt.Worker.Asr.{Transcript}
use session_replica_ielt.Worker.Transcription.{Call, answered, refused, crashed}
use session_replica_ielt.Worker.Utterances
use session_replica_ielt.Worker.Utterances.{Bucket, same_bucket}
use session_replica_ielt.Worker.Scoring.{part, session, FeatureVector, find_vector}
use session_replica_ielt.Worker.Features.Writes.{write_four, find-part, find-session}
use session_replica_ielt.Worker.Pronunciation.Segments.{
  PronunciationAssessment, with_source, assess_with_fallback, TurnSegment, load_scoreable_segments,
}
use session_replica_ielt.Worker.Pronunciation.Scores.{
  Prosody, Score, Aggregate, sum_of, mean, aggregate, provenance, scores_of, score_segments,
  write_parts, compute_pronunciation_scores,
}

abbrev is_azure : Call (PronunciationAssessment × String) → Bool
is_azure (answered (a, source)) = str_eq source "azure"
is_azure _ = false

fallback-ne-azure :
    (fallback : Call PronunciationAssessment) (a : PronunciationAssessment)
    → with_source "fallback_gop" fallback ≢ answered (a, "azure")
fallback-ne-azure (answered b) a = λ e. cc (let t : false ≡ true = ap is_azure e in t)
fallback-ne-azure refused a = λ e. cc e
fallback-ne-azure crashed a = λ e. cc e

-- The vendor's assessment is used exactly if it answers with confidence on a clear recording.
pub assess_with_fallback_azure :
    (floor : ℕ) (low_snr_flag : Bool) (primary fallback : Call PronunciationAssessment)
    (a : PronunciationAssessment)
    → (assess_with_fallback floor low_snr_flag primary fallback ≡ answered (a, "azure"))
      ↔ ((primary ≡ answered a) × (floor ≤ a.confidence) × (low_snr_flag ≡ false))
unfolding assess_with_fallback
assess_with_fallback_azure floor low_snr_flag (answered b) fallback a =
    ground (arith, fallback-ne-azure fallback a)
assess_with_fallback_azure floor low_snr_flag refused fallback a =
    ground (arith, fallback-ne-azure fallback a)
assess_with_fallback_azure floor low_snr_flag crashed fallback a = ground arith

one_bucket :
    (p : Bucket) (n1 n2 n3 : ℕ)
    → (if same_bucket Utterances.part1 (some p) then 1 + n1 else n1)
        + (if same_bucket Utterances.part2 (some p) then 1 + n2 else n2)
        + (if same_bucket Utterances.part3 (some p) then 1 + n3 else n3)
      ≡ 1 + (n1 + n2 + n3)
one_bucket Utterances.part1 n1 n2 n3 = omega arith
one_bucket Utterances.part2 n1 n2 n3 = omega arith
one_bucket Utterances.part3 n1 n2 n3 = omega arith

-- Each score counts in one part.
pub segment_counts :
    (scores : List Score)
    → (aggregate (scores_of Utterances.part1 scores)).segment_count
        + (aggregate (scores_of Utterances.part2 scores)).segment_count
        + (aggregate (scores_of Utterances.part3 scores)).segment_count
      ≡ (aggregate scores).segment_count
unfolding aggregate
segment_counts [] = omega arith
segment_counts (s ∷ scores) = ground (
  arith,
  one_bucket s.phase (length (scores_of Utterances.part1 scores))
      (length (scores_of Utterances.part2 scores)) (length (scores_of Utterances.part3 scores)),
  segment_counts scores,
)

sum-between :
    (f : Score → ℕ) (lo hi : ℕ) (scores : List Score)
    → All (λ s. (10 * lo ≤ f s) × (f s ≤ 10 * hi)) scores
    → (lo * (10 * length scores) ≤ sum_of f scores) × (sum_of f scores ≤ hi * (10 * length scores))
sum-between f lo hi [] all = omega arith
sum-between f lo hi (s ∷ scores) all =
    let (low, high) = sum-between f lo hi scores all.1 in
    (grind (arith, all.0), grind (arith, all.0))

-- A mean lies between two bounds of the scores.
pub mean-Between :
    (f : Score → ℕ) (lo hi : ℕ) (s : Score) (scores : List Score)
    → All (λ t. (10 * lo ≤ f t) × (f t ≤ 10 * hi)) (s ∷ scores)
    → (lo ≤ mean f (s ∷ scores)) × (mean f (s ∷ scores) ≤ hi)
unfolding mean
mean-Between f lo hi s scores all =
    let (low, high) = sum-between f lo hi (s ∷ scores) all in
    (
      round_ratio_ge _ (10 * length (s ∷ scores)) lo (omega arith) low,
      round_ratio_le _ (10 * length (s ∷ scores)) hi (omega arith) high,
    )

module _ (floor : ℕ) (fetch : String → Option (List ℕ)) (prosody_proxy : List ℕ → Option Prosody)
    (primary fallback : List ℕ → Word → Call PronunciationAssessment)
    (encode : Aggregate → List (ℕ × String × ℕ) → String) (session_id : ℕ)
    (segments : List TurnSegment) (transcripts : List Transcript) (table : List FeatureVector) where
  abbrev pub scored : Option (List Score)
  scored =
      score_segments floor fetch prosody_proxy primary fallback encode
        (load_scoreable_segments session_id segments transcripts)

  abbrev pub after : Bool × List FeatureVector
  after =
      compute_pronunciation_scores floor fetch prosody_proxy primary fallback encode session_id
        segments transcripts table

  -- If a turn cannot be scored the task raises and writes nothing. Otherwise it returns, and the
  -- table holds the vectors of the parts and of the session.
  pub compute_pronunciation_scores_all_or_nothing :
      ((scored ≡ none) × (after ≡ (false, table)))
      ⊎ ((scores : List Score) × (scored ≡ some scores)
          × (after.0 ≡ true)
          × ((b : Bucket)
              → find_vector session_id Judge.pronunciation (part b) after.1
                ≡ some (encode (aggregate (scores_of b scores)) (provenance (scores_of b scores))))
          × (find_vector session_id Judge.pronunciation session after.1
              ≡ some (encode (aggregate scores) (provenance scores))))
  unfolding compute_pronunciation_scores write_parts
  compute_pronunciation_scores_all_or_nothing = elim (Option-cases scored) [
    | inl missing ↦ inl (missing, rw (missing, compute_pronunciation_scores) refl)
    | inr (scores, e) ↦
        let f : Bucket → String =
          λ b. encode (aggregate (scores_of b scores)) (provenance (scores_of b scores)) in
        let g : String = encode (aggregate scores) (provenance scores) in
        let written : after ≡ (true, write_four session_id Judge.pronunciation f g table) =
          rw (e, compute_pronunciation_scores) refl in
        inr (
          scores,
          e,
          rw written refl,
          rw written (find-part session_id Judge.pronunciation f g table),
          rw written (find-session session_id Judge.pronunciation f g table),
        )
  ]
