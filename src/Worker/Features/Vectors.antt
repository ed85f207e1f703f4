-- ===== src/Worker/Features/Vectors.antt =====
-- What is found in the table of feature vectors after a write (apps/worker/feature_vectors.py).
use session_replica_ielt.Prelude.{
  ℕ, ◌≡◌, refl, ◌∙◌, inl, inr, ◌==◌, ==_refl, String, Bool, true, false, ◌&&◌, some, List, [], ◌∷◌,
  if◌then◌else◌, arith, Bool-cases,
}
use session_replica_ielt.Worker.Judge.{Criterion, same_criterion, index}
use session_replica_ielt.Worker.Scoring.{
  Scope, scope_index, FeatureVector, is_vector, find_vector, write_feature_vector,
}

-- Whether two keys of the table are the same.
abbrev pub same_key : ℕ × Criterion × Scope → ℕ × Criterion × Scope → Bool
same_key (s, c, p) (s', c', p') =
    (s == s') && same_criterion c c' && (scope_index p == scope_index p')

-- Three numbers against three.
abbrev same3 : ℕ → ℕ → ℕ → ℕ → ℕ → ℕ → Bool
same3 x y z a b c = (x == a) && (y == b) && (z == c)

same3-parts : (x y z a b c : ℕ) → same3 x y z a b c ≡ true → (x ≡ a) × (y ≡ b) × (z ≡ c)
same3-parts x y z a b c h = ground arith

same3_comm : (x y z a b c : ℕ) → same3 x y z a b c ≡ same3 a b c x y z
same3_comm x y z a b c = ground arith

same3_moved :
    (x y z a b c d e f : ℕ) → same3 x y z a b c ≡ true → same3 x y z d e f ≡ same3 a b c d e f
same3_moved x y z a b c d e f h = let (p, q, r) = same3-parts x y z a b c h in rw (p, q, r) refl

if_twice {ℓ} :
    {A : Type ℓ} (b : Bool) (x y z : A)
    → (if b then x else y) ≡ (if b then x else (if b then z else y))
if_twice true x y z = refl
if_twice false x y z = refl

-- Two tests that cannot both hold.
if_apart {ℓ} :
    {A : Type ℓ} (a b : Bool) (x y z : A)
    → (a ≡ true → b ≡ true → ⊥)
    → (if a then x else (if b then y else z)) ≡ (if b then y else (if a then x else z))
if_apart true true x y z h = absurd (h refl refl)
if_apart true false x y z h = refl
if_apart false b x y z h = refl

module _ (s : ℕ) (c : Criterion) (p : Scope) (features : String) (s' : ℕ) (c' : Criterion)
    (p' : Scope) where
  same_vector :
      (v : FeatureVector)
      → is_vector s c p v ≡ true
      → is_vector s' c' p' v ≡ same_key (s, c, p) (s', c', p')
  same_vector v h =
      same3_moved v.session_id (index v.criterion) (scope_index v.phase) s (index c) (scope_index p)
        s' (index c') (scope_index p') h

  not_both :
      (v : FeatureVector)
      → is_vector s c p v ≡ false
      → is_vector s' c' p' v ≡ true
      → same_key (s, c, p) (s', c', p') ≡ true
      → ⊥
  not_both v other h k =
      let back =
        same3_moved v.session_id (index v.criterion) (scope_index v.phase) s' (index c')
          (scope_index p') s (index c) (scope_index p) h in
      cc (back, other, k, same3_comm s (index c) (scope_index p) s' (index c') (scope_index p'))

  pub find_vector-write :
      (table : List FeatureVector)
      → find_vector s' c' p' (write_feature_vector s c p features table)
        ≡ (if same_key (s, c, p) (s', c', p') then some features else find_vector s' c' p' table)
  unfolding find_vector write_feature_vector
  find_vector-write [] = refl
  find_vector-write (v ∷ table) = elim (Bool-cases (is_vector s c p v)) [
    | inl here ↦
        rw (here, write_feature_vector)
          (rw (same_vector v here) (
            if_twice (same_key (s, c, p) (s', c', p')) (some features) (find_vector s' c' p' table)
              (some v.features)))
    | inr later ↦
        rw (later, write_feature_vector)
          (rw (find_vector-write table) (
            if_apart (is_vector s' c' p' v) (same_key (s, c, p) (s', c', p')) (some v.features)
              (some features) (find_vector s' c' p' table) (not_both v later)))
  ]

pub find-same :
    (s : ℕ) (c : Criterion) (p : Scope) (features : String) (table : List FeatureVector)
    → find_vector s c p (write_feature_vector s c p features table) ≡ some features
find-same s c p features table =
    find_vector-write s c p features s c p table
    ∙ rw (==_refl s, ==_refl (index c), ==_refl (scope_index p)) refl

pub find-other :
    (s : ℕ) (c : Criterion) (p q : Scope) (features : String) (table : List FeatureVector)
    → (scope_index p == scope_index q) ≡ false
    → find_vector s c q (write_feature_vector s c p features table) ≡ find_vector s c q table
find-other s c p q features table h =
    find_vector-write s c p features s c q table ∙ rw (==_refl s, ==_refl (index c), h) refl
