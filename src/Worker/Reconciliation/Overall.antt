-- ===== src/Worker/Reconciliation/Overall.antt =====
-- The overall band, and the order of the two passes (apps/worker/reconciliation.py).
use session_replica_ielt.Prelude.{
  ℕ, ◌*◌, ◌≤◌, ◌≡◌, refl, ap, sym, subst, map-append, ◌∙◌, Bool, Option, none, some, List, [], ◌∷◌,
  ltb, map, length, round_ratio, arith, All, round_ratio-between,
}
use session_replica_ielt.Worker.Judge.{Criterion, criterion_order, CriterionScore, JudgeOutput}
use session_replica_ielt.Worker.Reconciliation.{
  score_of, final_score, FinalScore, sum, overall, band_of, self_consistency_reconciliation,
}
use session_replica_ielt.Worker.Reconciliation.Review.{
  if_scored, score_1, score_2, reviewed, needs_review, listed, scored, flagged_criteria-listed,
  final_scores-scored,
}

sum-between :
    (lo hi : ℕ) (bs : List ℕ)
    → All (λ b. lo ≤ b × b ≤ hi) bs
    → lo * length bs ≤ sum bs × sum bs ≤ hi * length bs
sum-between lo hi [] all = (ground arith, ground arith)
sum-between lo hi (b ∷ bs) all =
    let (l, h) = sum-between lo hi bs all.1 in (ground (arith, l, all.0), ground (arith, h, all.0))

-- The overall band lies between any bounds of the recorded bands, of which there is one at least.
pub overall_between :
    (lo hi b : ℕ) (bs : List ℕ)
    → All (λ b. lo ≤ b × b ≤ hi) (b ∷ bs)
    → lo ≤ overall (b ∷ bs) × overall (b ∷ bs) ≤ hi
unfolding overall
overall_between lo hi b bs all =
    let (l, h) = sum-between lo hi (b ∷ bs) all in
    round_ratio-between (sum (b ∷ bs)) (length bs) lo hi l h

map-Between :
    (lo hi : ℕ) (fs : List FinalScore)
    → All (λ f. lo ≤ f.band × f.band ≤ hi) fs
    → All (λ b. lo ≤ b × b ≤ hi) (map band_of fs)
map-Between lo hi [] all = tt
map-Between lo hi (f ∷ fs) all = (all.0, map-Between lo hi fs all.1)

-- If some criterion is scored, the overall band lies between any two bounds of the recorded bands.
pub overall_band_between :
    (pass_1 pass_2 : JudgeOutput) (threshold lo hi : ℕ) {f : FinalScore} {fs : List FinalScore}
    → let r = self_consistency_reconciliation pass_1 pass_2 threshold in
      r.final_scores ≡ f ∷ fs
      → All (λ x. lo ≤ x.band × x.band ≤ hi) r.final_scores
      → lo ≤ r.overall_band × r.overall_band ≤ hi
unfolding self_consistency_reconciliation
overall_band_between pass_1 pass_2 threshold lo hi {f} {fs} scores all = rw scores (
    overall_between lo hi f.band (map band_of fs)
      (map-Between lo hi (f ∷ fs) (subst (All (λ x. lo ≤ x.band × x.band ≤ hi)) scores all)))

needs_review_comm :
    (threshold : ℕ) (o1 o2 : Option CriterionScore)
    → needs_review threshold o1 o2 ≡ needs_review threshold o2 o1
needs_review_comm threshold (some a) (some b) = ap (ltb threshold) (omega arith)
needs_review_comm threshold none none = refl
needs_review_comm threshold none (some b) = refl
needs_review_comm threshold (some a) none = refl

listed-cong :
    (f g : Criterion → Bool)
    → ((c : Criterion) → f c ≡ g c)
    → (cs : List Criterion) → listed f cs ≡ listed g cs
listed-cong f g same [] = refl
listed-cong f g same (c ∷ cs) = rw (same c, listed-cong f g same cs) refl

bands_comm :
    (c : Criterion) (o1 o2 : Option CriterionScore)
    → map band_of (if_scored c o1 o2) ≡ map band_of (if_scored c o2 o1)
unfolding final_score
bands_comm c (some a) (some b) = ap (λ s. round_ratio s 2 ∷ []) (omega arith)
bands_comm c none none = refl
bands_comm c none (some b) = refl
bands_comm c (some a) none = refl

scored_comm :
    (o1 o2 : Criterion → Option CriterionScore) (cs : List Criterion)
    → map band_of (scored o1 o2 cs) ≡ map band_of (scored o2 o1 cs)
scored_comm o1 o2 [] = refl
scored_comm o1 o2 (c ∷ cs) =
    map-append band_of (if_scored c (o1 c) (o2 c)) (scored o1 o2 cs)
    ∙ rw (bands_comm c (o1 c) (o2 c), scored_comm o1 o2 cs)
        (sym (map-append band_of (if_scored c (o2 c) (o1 c)) (scored o2 o1 cs)))

-- Neither pass weighs more than the other: exchanging them gives the same bands, the same overall
-- band and the same flagged criteria.
pub reconciliation_symmetric :
    (pass_1 pass_2 : JudgeOutput) (threshold : ℕ)
    → let r = self_consistency_reconciliation pass_1 pass_2 threshold in
      let r' = self_consistency_reconciliation pass_2 pass_1 threshold in
      (map band_of r.final_scores ≡ map band_of r'.final_scores)
      × (r.overall_band ≡ r'.overall_band)
      × (r.flagged_criteria ≡ r'.flagged_criteria)
unfolding self_consistency_reconciliation
reconciliation_symmetric pass_1 pass_2 threshold =
    let same_bands =
      ap (map band_of) (final_scores-scored pass_1 pass_2 threshold)
      ∙ scored_comm (score_1 pass_1 pass_2 threshold) (score_2 pass_1 pass_2 threshold)
          criterion_order
      ∙ sym (ap (map band_of) (final_scores-scored pass_2 pass_1 threshold)) in
    (
      same_bands,
      ap overall same_bands,
      flagged_criteria-listed pass_1 pass_2 threshold
          ∙ listed-cong (reviewed pass_1 pass_2 threshold) (reviewed pass_2 pass_1 threshold)
              (λ c.
                needs_review_comm threshold (score_of c pass_1.criterion_scores)
                  (score_of c pass_2.criterion_scores))
              criterion_order
          ∙ sym (flagged_criteria-listed pass_2 pass_1 threshold),
    )
