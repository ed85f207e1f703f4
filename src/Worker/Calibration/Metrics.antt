-- ===== src/Worker/Calibration/Metrics.antt =====
-- apps/worker/calibration_metrics.py. Bands are in half bands. A quotient is exact, and a square
-- root is left as its square; `none` in the place of a result is the ValueError of unequal lengths.
use session_replica_ielt.Prelude.{
  ℕ, zero, suc, ◌+◌, ◌-◌, ◌*◌, min, ◌==◌, leb, ltb, Bool, true, false, ◌&&◌, Option, none, some,
  List, [], ◌∷◌, length, if◌then◌else◌,
}
use session_replica_ielt.Worker.Reconciliation.{distance}
use session_replica_ielt.Worker.Lexical.Diversity.{Ratio}

-- `zip(preds, golds)` of lists of one length; `none` is the error of `_check_equal_length`.
unfoldable pub zip_equal : List ℕ → List ℕ → Option (List (ℕ × ℕ))
zip_equal [] [] = some []
zip_equal [] (g ∷ golds) = none
zip_equal (p ∷ preds) [] = none
zip_equal (p ∷ preds) (g ∷ golds) = elim (zip_equal preds golds) [
  | none ↦ none
  | some pairs ↦ some ((p, g) ∷ pairs)
]

abbrev pub sum_pairs : (ℕ → ℕ → ℕ) → List (ℕ × ℕ) → ℕ
sum_pairs f [] = 0
sum_pairs f ((p, g) ∷ pairs) = f p g + sum_pairs f pairs

-- A total over the number of pairs, or 0.0 for none; a total counts in units of `1 / unit`.
abbrev pub per_pair : ℕ → ℕ → List (ℕ × ℕ) → Ratio
per_pair unit total [] = record { num = 0; den = 1 }
per_pair unit total (x ∷ pairs) = record { num = total; den = unit * length (x ∷ pairs) }

-- `mean_absolute_error`, of a list of pairs
abbrev pub mean_absolute_error : List (ℕ × ℕ) → Ratio
mean_absolute_error pairs = per_pair 2 (sum_pairs distance pairs) pairs

abbrev pub squared_distance : ℕ → ℕ → ℕ
squared_distance p g = distance p g * distance p g

-- The square of `root_mean_squared_error`.
abbrev pub mean_squared_error : List (ℕ × ℕ) → Ratio
mean_squared_error pairs = per_pair 4 (sum_pairs squared_distance pairs) pairs

-- `abs(p - g) <= tolerance + 1e-9`; the epsilon decides nothing between half bands.
abbrev pub agrees : ℕ → ℕ → ℕ → Bool
agrees tolerance p g = leb (distance p g) tolerance

abbrev pub count_agreeing : ℕ → List (ℕ × ℕ) → ℕ
count_agreeing tolerance [] = 0
count_agreeing tolerance ((p, g) ∷ pairs) =
    (if agrees tolerance p g then 1 else 0) + count_agreeing tolerance pairs

-- `agreement_rate`
abbrev pub agreement_rate : ℕ → List (ℕ × ℕ) → Ratio
agreement_rate tolerance pairs = per_pair 1 (count_agreeing tolerance pairs) pairs

-- The coefficient is (above - below) / sqrt (var_p * var_g).
pub record Correlation : Type 0 where
  pub above : ℕ
  pub below : ℕ
  pub var_p : ℕ
  pub var_g : ℕ

-- n times the sum of the squares of the deviations.
abbrev pub variance : ℕ → ℕ → ℕ → ℕ
variance n squares total = n * squares - total * total

abbrev pub undefined_if : Bool → Correlation → Option Correlation
undefined_if true c = none
undefined_if false c = some c

-- `pearson_correlation`
unfoldable pub pearson_correlation : List (ℕ × ℕ) → Option Correlation
pearson_correlation pairs =
    let n = length pairs in
    let total_p = sum_pairs (λ p g. p) pairs in
    let total_g = sum_pairs (λ p g. g) pairs in
    let c : Correlation = record {
      above = n * sum_pairs (λ p g. p * g) pairs;
      below = total_p * total_g;
      var_p = variance n (sum_pairs (λ p g. p * p) pairs) total_p;
      var_g = variance n (sum_pairs (λ p g. g * g) pairs) total_g;
    } in
    if ltb n 2 then none else if c.var_p == 0 then none else undefined_if (c.var_g == 0) c

-- `num_classes`, for bands from 0.0 to 9.0
abbrev pub num_classes : ℕ
num_classes = 19

-- `to_class`
abbrev pub to_class : ℕ → ℕ
to_class band = min 18 band

abbrev pub classes : List (ℕ × ℕ) → List (ℕ × ℕ)
classes [] = []
classes ((p, g) ∷ pairs) = (to_class p, to_class g) ∷ classes pairs

abbrev pub one_if : Bool → ℕ
one_if true = 1
one_if false = 0

-- `observed[i][j]`, `pred_hist[i]` and `gold_hist[j]`
unfoldable pub observed : List (ℕ × ℕ) → ℕ → ℕ → ℕ
observed [] i j = 0
observed ((p, g) ∷ pairs) i j = one_if ((i == p) && (j == g)) + observed pairs i j

unfoldable pub pred_hist : List (ℕ × ℕ) → ℕ → ℕ
pred_hist [] i = 0
pred_hist ((p, g) ∷ pairs) i = one_if (i == p) + pred_hist pairs i

unfoldable pub gold_hist : List (ℕ × ℕ) → ℕ → ℕ
gold_hist [] j = 0
gold_hist ((p, g) ∷ pairs) j = one_if (j == g) + gold_hist pairs j

-- `sum(f(i) for i in range(n))`
unfoldable pub sum_range : ℕ → (ℕ → ℕ) → ℕ
sum_range zero f = 0
sum_range (suc n) f = sum_range n f + f n

-- The coefficient is 1 - disagreement / expected; the common factor of the weights is left out.
pub record Kappa : Type 0 where
  pub disagreement : ℕ
  pub expected : ℕ

unfoldable pub weighted_disagreement : List (ℕ × ℕ) → ℕ
unfolding observed sum_range
weighted_disagreement pairs =
    sum_range num_classes
      (λ i. sum_range num_classes (λ j. squared_distance i j * observed pairs i j))

unfoldable pub weighted_expectation : List (ℕ × ℕ) → ℕ
unfolding pred_hist gold_hist sum_range
weighted_expectation pairs = sum_range num_classes (λ i.
    sum_range num_classes (λ j. squared_distance i j * (pred_hist pairs i * gold_hist pairs j)))

abbrev pub kappa_of : ℕ → ℕ → ℕ → Option Kappa
kappa_of n disagreement zero = none
kappa_of n disagreement (suc e) =
    some (record { disagreement = n * disagreement; expected = suc e })

-- `quadratic_weighted_kappa`
unfoldable pub quadratic_weighted_kappa : List (ℕ × ℕ) → Option Kappa
unfolding weighted_disagreement weighted_expectation
quadratic_weighted_kappa [] = none
quadratic_weighted_kappa (x ∷ pairs) =
    kappa_of (length (x ∷ pairs)) (weighted_disagreement (classes (x ∷ pairs)))
      (weighted_expectation (classes (x ∷ pairs)))
