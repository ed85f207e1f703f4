-- ===== src/Worker/Calibration/Kappa.antt =====
-- The weighted disagreement of the kappa, apps/worker/calibration_metrics.py.
use session_replica_ielt.Prelude.{
  ℕ, zero, suc, ◌+◌, ◌-◌, ◌*◌, ◌<◌, ◌≡◌, refl, sym, ap, ◌∙◌, inl, inr, ◌==◌, ==_iff, ==_refl, false,
  ◌&&◌, ◌↔◌, some, List, [], ◌∷◌, length, arith, Bool-cases,
}
use native.Mathlib.Nat.{mul-add}
use session_replica_ielt.Worker.Reconciliation.{distance}
use session_replica_ielt.Worker.Calibration.Metrics.{
  sum_pairs, squared_distance, num_classes, to_class, classes, one_if, observed, sum_range, Kappa,
  weighted_disagreement, weighted_expectation, kappa_of, quadratic_weighted_kappa,
}

sum_range-add : (n : ℕ) (f g : ℕ → ℕ) → sum_range n (λ i. f i + g i) ≡ sum_range n f + sum_range n g
unfolding sum_range
sum_range-add zero f g = omega arith
sum_range-add (suc n) f g = omega (arith, sum_range-add n f g)

sum_range-zero : (n : ℕ) (f : ℕ → ℕ) → ((i : ℕ) → i < n → f i ≡ 0) → sum_range n f ≡ 0
unfolding sum_range
sum_range-zero zero f h = refl
sum_range-zero (suc n) f h =
    omega (arith, sum_range-zero n f (λ i l. h i (omega arith)), h n (omega arith))

sum_range-cong : (n : ℕ) (f g : ℕ → ℕ) → ((i : ℕ) → f i ≡ g i) → sum_range n f ≡ sum_range n g
unfolding sum_range
sum_range-cong zero f g h = refl
sum_range-cong (suc n) f g h = omega (arith, sum_range-cong n f g h, h n)

-- A sum with one term.
sum_range-one :
    (n p : ℕ) (f : ℕ → ℕ) → p < n → ((i : ℕ) → (i == p) ≡ false → f i ≡ 0) → sum_range n f ≡ f p
unfolding sum_range
sum_range-one zero p f h off = absurd (omega arith)
sum_range-one (suc n) p f h off = elim (Bool-cases (n == p)) [
  | inl same ↦
      let e : n ≡ p = (==_iff n p).0 same in
      omega (
        arith,
        ap f e,
        sum_range-zero n f (λ i l. off i (let d : (i == p) ≡ false = ground arith in d)),
      )
  | inr other ↦ omega (arith, off n other, sum_range-one n p f (ground arith) off)
]

-- The sum over the matrix, for one pair.
abbrev cell : ℕ → ℕ → ℕ → ℕ → ℕ
cell p g i j = squared_distance i j * one_if ((i == p) && (j == g))

cell_sum :
    (n p g : ℕ)
    → p < n
    → g < n
    → sum_range n (λ i. sum_range n (λ j. cell p g i j)) ≡ squared_distance p g
cell_sum n p g hp hg =
    sum_range-one n p (λ i. sum_range n (λ j. cell p g i j)) hp
      (λ i off. sum_range-zero n (λ j. cell p g i j) (λ j l. rw off (grind arith)))
    ∙ sum_range-one n g (λ j. cell p g p j) hg (λ j off. rw (==_refl p, off) (grind arith))
    ∙ rw (==_refl p, ==_refl g) (grind arith)

abbrev matrix_sum : (ℕ → ℕ → ℕ) → ℕ
matrix_sum f = sum_range num_classes (λ i. sum_range num_classes (f i))

matrix_sum-add : (f g : ℕ → ℕ → ℕ) → matrix_sum (λ i j. f i j + g i j) ≡ matrix_sum f + matrix_sum g
matrix_sum-add f g =
    sum_range-cong num_classes (λ i. sum_range num_classes (λ j. f i j + g i j))
      (λ i. sum_range num_classes (f i) + sum_range num_classes (g i))
      (λ i. sum_range-add num_classes (f i) (g i))
    ∙ sum_range-add num_classes (λ i. sum_range num_classes (f i))
        (λ i. sum_range num_classes (g i))

matrix_sum-cong : (f g : ℕ → ℕ → ℕ) → ((i j : ℕ) → f i j ≡ g i j) → matrix_sum f ≡ matrix_sum g
matrix_sum-cong f g h =
    sum_range-cong num_classes (λ i. sum_range num_classes (f i)) (λ i. sum_range num_classes (g i))
      (λ i. sum_range-cong num_classes (f i) (g i) (h i))

-- The classes of a pair are rows and columns of the matrix.
abbrev Inside : List (ℕ × ℕ) → Type 0
Inside [] = Unit
Inside ((p, g) ∷ pairs) = (p < num_classes) × (g < num_classes) × Inside pairs

add_eq : {a b c d : ℕ} → a ≡ b → c ≡ d → a + c ≡ b + d
add_eq p q = omega arith

weighted_disagreement-eq :
    (pairs : List (ℕ × ℕ))
    → Inside pairs
    → weighted_disagreement pairs ≡ sum_pairs squared_distance pairs
unfolding weighted_disagreement observed
weighted_disagreement-eq [] h =
    sum_range-zero num_classes (λ i. sum_range num_classes (λ j. squared_distance i j * 0))
      (λ i l. sum_range-zero num_classes (λ j. squared_distance i j * 0) (λ j m. omega arith))
weighted_disagreement-eq ((p, g) ∷ pairs) (hp, hg, rest) =
    matrix_sum-cong
      (λ i j. squared_distance i j * (one_if ((i == p) && (j == g)) + observed pairs i j))
      (λ i j. cell p g i j + squared_distance i j * observed pairs i j)
      (λ i j. mul-add (squared_distance i j) _ _)
    ∙ matrix_sum-add (cell p g) (λ i j. squared_distance i j * observed pairs i j)
    ∙ add_eq (cell_sum num_classes p g hp hg) (weighted_disagreement-eq pairs rest)

classes-Inside : (pairs : List (ℕ × ℕ)) → Inside (classes pairs)
classes-Inside [] = tt
classes-Inside ((p, g) ∷ pairs) = (omega arith, omega arith, classes-Inside pairs)

-- Every pair is in one class.
abbrev pub SameClasses : List (ℕ × ℕ) → Type 0
SameClasses [] = Unit
SameClasses ((p, g) ∷ pairs) = (to_class p ≡ to_class g) × SameClasses pairs

root_zero : (d : ℕ) → d * d ≡ 0 → d ≡ 0
root_zero zero h = refl
root_zero (suc d) h = absurd (grind arith)

square_zero : (p g : ℕ) → squared_distance p g ≡ 0 → p ≡ g
square_zero p g h = omega (arith, root_zero (distance p g) h)

same_zero : (p g : ℕ) → p ≡ g → squared_distance p g ≡ 0
same_zero p g e = rw e (let z : (g - g + (g - g)) ≡ 0 = omega arith in rw z refl)

sum_zero :
    (pairs : List (ℕ × ℕ)) → (sum_pairs squared_distance (classes pairs) ≡ 0) ↔ SameClasses pairs
sum_zero [] = (λ h. tt, λ h. refl)
sum_zero ((p, g) ∷ pairs) = (
  λ h. (square_zero (to_class p) (to_class g) (omega arith), (sum_zero pairs).0 (omega arith)),
  λ h. omega (arith, (sum_zero pairs).1 h.1, same_zero (to_class p) (to_class g) h.0),
)

kappa_of-some : (n d e : ℕ) {k : Kappa} → kappa_of n d e ≡ some k → k.disagreement ≡ n * d
kappa_of-some n d zero h = absurd (cc h)
kappa_of-some n d (suc e) h = ground (arith, h)

product_zero : (n s : ℕ) → suc n * s ≡ 0 → s ≡ 0
product_zero n zero h = refl
product_zero n (suc s) h = absurd (grind arith)

-- The coefficient's disagreement is the sum of the squared distances of the pairs' classes, times
-- their number, and so it is 0, and the coefficient 1, exactly if every pair is in one class.
pub quadratic_weighted_kappa_disagreement :
    (x : ℕ × ℕ) (pairs : List (ℕ × ℕ)) {k : Kappa}
    → quadratic_weighted_kappa (x ∷ pairs) ≡ some k
    → (k.disagreement ≡ length (x ∷ pairs) * sum_pairs squared_distance (classes (x ∷ pairs)))
      × ((k.disagreement ≡ 0) ↔ SameClasses (x ∷ pairs))
unfolding quadratic_weighted_kappa
quadratic_weighted_kappa_disagreement x pairs {k} h =
    let total : ℕ = sum_pairs squared_distance (classes (x ∷ pairs)) in
    let e : k.disagreement ≡ length (x ∷ pairs) * total =
      kappa_of-some (length (x ∷ pairs)) (weighted_disagreement (classes (x ∷ pairs)))
        (weighted_expectation (classes (x ∷ pairs))) h
      ∙ ap (λ d. length (x ∷ pairs) * d)
          (weighted_disagreement-eq (classes (x ∷ pairs)) (classes-Inside (x ∷ pairs))) in
    (
      e,
      (
        λ z. (sum_zero (x ∷ pairs)).0 (product_zero (length pairs) total (sym e ∙ z)),
        λ same.
            e
            ∙ (ap (λ d. length (x ∷ pairs) * d) ((sum_zero (x ∷ pairs)).1 same)
                ∙ (let z : length (x ∷ pairs) * 0 ≡ 0 = omega arith in z)),
      ),
    )
