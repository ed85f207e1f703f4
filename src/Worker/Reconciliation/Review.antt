-- ===== src/Worker/Reconciliation/Review.antt =====
-- Which sessions go to human review, and what bands are recorded (apps/worker/reconciliation.py).
use session_replica_ielt.Prelude.{
  ℕ, ◌≤◌, min, max, ◌≡◌, refl, ap, sym, append-nil, append_assoc, ◌∙◌, Bool, true, false, not,
  Option, none, some, List, [], ◌∷◌, ◌++◌, ltb, any, round_ratio, arith, All, All-append,
}
use session_replica_ielt.Worker.Judge.{
  Criterion, criterion_order, same_criterion, CriterionScore, JudgeOutput,
}
use session_replica_ielt.Worker.Reconciliation.{
  score_of, final_score, FinalScore, distance, Collected, collect, collect_all, is_empty,
  self_consistency_reconciliation, nothing_yet,
}

-- A criterion needs review if a pass omits it, or if the bands differ by more than the threshold.
abbrev pub needs_review : ℕ → Option CriterionScore → Option CriterionScore → Bool
needs_review threshold (some a) (some b) = ltb threshold (distance a.band b.band)
needs_review threshold _ _ = true

abbrev pub is_flagged : Criterion → List Criterion → Bool
is_flagged c cs = any (λ x. same_criterion x c) cs

-- What a round adds.
abbrev if_flagged : Criterion → Bool → List Criterion
if_flagged c true = c ∷ []
if_flagged c false = []

abbrev pub if_scored : Criterion → Option CriterionScore → Option CriterionScore → List FinalScore
if_scored c (some a) (some b) = final_score c a b ∷ []
if_scored c _ _ = []

collect-flagged :
    (threshold : ℕ) (c : Criterion) (o1 o2 : Option CriterionScore) (t : Collected)
    → (collect threshold c o1 o2 t).flagged
      ≡ t.flagged ++ if_flagged c (needs_review threshold o1 o2)
unfolding collect
collect-flagged threshold c (some a) (some b) t = ground (arith, append-nil t.flagged)
collect-flagged threshold c none o2 t = refl
collect-flagged threshold c (some a) none t = refl

collect-scores :
    (threshold : ℕ) (c : Criterion) (o1 o2 : Option CriterionScore) (t : Collected)
    → (collect threshold c o1 o2 t).scores ≡ t.scores ++ if_scored c o1 o2
unfolding collect
collect-scores threshold c (some a) (some b) t = refl
collect-scores threshold c none o2 t = sym (append-nil t.scores)
collect-scores threshold c (some a) none t = sym (append-nil t.scores)

-- What the rounds for a list of criteria add.
abbrev pub listed : (Criterion → Bool) → List Criterion → List Criterion
listed f [] = []
listed f (c ∷ cs) = if_flagged c (f c) ++ listed f cs

abbrev pub scored :
    (Criterion → Option CriterionScore)
    → (Criterion → Option CriterionScore)
    → List Criterion
    → List FinalScore
scored o1 o2 [] = []
scored o1 o2 (c ∷ cs) = if_scored c (o1 c) (o2 c) ++ scored o1 o2 cs

is_flagged-listed :
    (f : Criterion → Bool) (c : Criterion) → is_flagged c (listed f criterion_order) ≡ f c
is_flagged-listed f c = ground arith

listed-any :
    (f : Criterion → Bool) → not (is_empty (listed f criterion_order)) ≡ any f criterion_order
listed-any f = ground arith

-- A band between those of the two passes.
abbrev pub Between : FinalScore → Type 0
Between f = (min f.pass_1_band f.pass_2_band ≤ f.band) × (f.band ≤ max f.pass_1_band f.pass_2_band)

final_score-Between : (c : Criterion) (a b : CriterionScore) → Between (final_score c a b)
unfolding final_score round_ratio
final_score-Between c a b = (ground arith, ground arith)

if_scored-Between :
    (c : Criterion) (o1 o2 : Option CriterionScore) → All Between (if_scored c o1 o2)
if_scored-Between c (some a) (some b) = (final_score-Between c a b, tt)
if_scored-Between c none o2 = tt
if_scored-Between c (some a) none = tt

scored-Between :
    (o1 o2 : Criterion → Option CriterionScore) (cs : List Criterion)
    → All Between (scored o1 o2 cs)
scored-Between o1 o2 [] = tt
scored-Between o1 o2 (c ∷ cs) =
    All-append Between (if_scored c (o1 c) (o2 c)) (scored o1 o2 cs)
      (if_scored-Between c (o1 c) (o2 c)) (scored-Between o1 o2 cs)

module _ (pass_1 pass_2 : JudgeOutput) (threshold : ℕ) where
  abbrev pub score_1 : Criterion → Option CriterionScore
  score_1 c = score_of c pass_1.criterion_scores

  abbrev pub score_2 : Criterion → Option CriterionScore
  score_2 c = score_of c pass_2.criterion_scores

  abbrev pub reviewed : Criterion → Bool
  reviewed c = needs_review threshold (score_1 c) (score_2 c)

  collect_all-flagged :
      (cs : List Criterion) (t : Collected)
      → (collect_all threshold pass_1.criterion_scores pass_2.criterion_scores cs t).flagged
        ≡ t.flagged ++ listed reviewed cs
  unfolding collect_all
  collect_all-flagged [] t = sym (append-nil t.flagged)
  collect_all-flagged (c ∷ cs) t =
      collect_all-flagged cs (collect threshold c (score_1 c) (score_2 c) t)
      ∙ ap (λ l. l ++ listed reviewed cs) (collect-flagged threshold c (score_1 c) (score_2 c) t)
      ∙ append_assoc t.flagged (if_flagged c (reviewed c)) (listed reviewed cs)

  collect_all-scores :
      (cs : List Criterion) (t : Collected)
      → (collect_all threshold pass_1.criterion_scores pass_2.criterion_scores cs t).scores
        ≡ t.scores ++ scored score_1 score_2 cs
  unfolding collect_all
  collect_all-scores [] t = sym (append-nil t.scores)
  collect_all-scores (c ∷ cs) t =
      collect_all-scores cs (collect threshold c (score_1 c) (score_2 c) t)
      ∙ ap (λ l. l ++ scored score_1 score_2 cs)
          (collect-scores threshold c (score_1 c) (score_2 c) t)
      ∙ append_assoc t.scores (if_scored c (score_1 c) (score_2 c)) (scored score_1 score_2 cs)

  pub flagged_criteria-listed :
      (self_consistency_reconciliation pass_1 pass_2 threshold).flagged_criteria
      ≡ listed reviewed criterion_order
  unfolding self_consistency_reconciliation
  flagged_criteria-listed = collect_all-flagged criterion_order nothing_yet

  pub final_scores-scored :
      (self_consistency_reconciliation pass_1 pass_2 threshold).final_scores
      ≡ scored score_1 score_2 criterion_order
  unfolding self_consistency_reconciliation
  final_scores-scored = collect_all-scores criterion_order nothing_yet

  -- A criterion is flagged exactly if a pass omits it or its two bands differ by more than the
  -- threshold.
  pub flagged_exactly :
      (c : Criterion)
      → is_flagged c (self_consistency_reconciliation pass_1 pass_2 threshold).flagged_criteria
        ≡ needs_review threshold
            (score_of c pass_1.criterion_scores)
            (score_of c pass_2.criterion_scores)
  flagged_exactly c = ap (is_flagged c) flagged_criteria-listed ∙ is_flagged-listed reviewed c

  -- A session goes to human review exactly if some criterion needs it.
  pub review_exactly :
      (self_consistency_reconciliation pass_1 pass_2 threshold).flag_for_human_review
      ≡ any
          (λ c.
            needs_review threshold
              (score_of c pass_1.criterion_scores)
              (score_of c pass_2.criterion_scores))
          criterion_order
  unfolding self_consistency_reconciliation
  review_exactly = ap (λ cs. not (is_empty cs)) flagged_criteria-listed ∙ listed-any reviewed

  -- Every recorded band lies between the bands of the two passes.
  pub bands-Between :
      All Between (self_consistency_reconciliation pass_1 pass_2 threshold).final_scores
  bands-Between = rw final_scores-scored (scored-Between score_1 score_2 criterion_order)
