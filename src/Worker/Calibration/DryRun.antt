-- ===== src/Worker/Calibration/DryRun.antt =====
-- The calibration with the scripted judge, apps/worker/calibration_report.py and
-- calibration_corpus.py.
use session_replica_ielt.Prelude.{ℕ, ◌+◌, ◌≡◌, ◌==◌, false, List, [], ◌∷◌, All, round_ratio}
use session_replica_ielt.Worker.Judge
use session_replica_ielt.Worker.Judge.{Criterion, same_criterion}
use session_replica_ielt.Worker.Reconciliation.{self_consistency_reconciliation}
use session_replica_ielt.Worker.Calibration.Corpus.{BenchmarkCase, scripted_output}
use session_replica_ielt.Worker.Calibration.Report.{CaseResult}

-- No two cases have the same session.
abbrev pub Unique : List BenchmarkCase → Type 0
Unique [] = Unit
Unique (c ∷ cases) =
    All (λ (d : BenchmarkCase). (c.session_id == d.session_id) ≡ false) cases × Unique cases

-- The two scripted passes of a case, reconciled.
abbrev pub dry_result : ℕ → BenchmarkCase → CaseResult
dry_result threshold c = (
  c,
  self_consistency_reconciliation (scripted_output c.simulated_pass_1)
      (scripted_output c.simulated_pass_2) threshold,
)

abbrev pub dry_pair : Criterion → BenchmarkCase → ℕ × ℕ
dry_pair c k =
    (round_ratio (k.simulated_pass_1.band c + k.simulated_pass_2.band c) 2, k.human_scores.band c)
