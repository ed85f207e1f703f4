-- ===== src/Prelude/Lists.antt =====
-- Lists measured by native numbers, and the loops over lists that the components share.
use Prim.Native.Nat.{ℕ, zero, suc, ◌+◌, ◌≤◌, ◌<◌}
use mathlib.Core.Path.{◌≡◌, refl, subst, ap}
use mathlib.Core.Logic.{inl, inr}
use mathlib.Core.Bool.{Bool, true, false}
use mathlib.Core.List.{List, [], ◌∷◌, ◌++◌, Memᴰ}
use mathlib.Core.List.Memᴰ
use mathlib.Core.Option.{Option, none, some, some-injective}
use native.Mathlib.Omega.{arith}
use session_replica_ielt.Prelude.Tests.{if◌then◌else◌, Bool-cases}

module _ {ℓ} {A : Type ℓ} where
  abbrev pub length : List A → ℕ
  length [] = 0
  length (x ∷ xs) = suc (length xs)

  abbrev pub get_elem? : List A → ℕ → Option A
  get_elem? [] i = none
  get_elem? (x ∷ xs) zero = some x
  get_elem? (x ∷ xs) (suc i) = get_elem? xs i

  abbrev pub take : ℕ → List A → List A
  take zero xs = []
  take (suc n) [] = []
  take (suc n) (x ∷ xs) = x ∷ take n xs

  -- `xs[-1]`
  abbrev pub get_last? : List A → Option A
  get_last? [] = none
  get_last? (x ∷ []) = some x
  get_last? (x ∷ y ∷ xs) = get_last? (y ∷ xs)

  -- `[x for x in xs if p(x)]`
  abbrev pub select : (A → Bool) → List A → List A
  select p [] = []
  select p (x ∷ xs) = if p x then x ∷ select p xs else select p xs

  abbrev pub any : (A → Bool) → List A → Bool
  any p [] = false
  any p (x ∷ xs) = if p x then true else any p xs

  -- A predicate on every element, by recursion, so that it computes to a tuple.
  abbrev pub All {κ} : (A → Type κ) → List A → Type κ
  All P [] = Unit
  All P (x ∷ xs) = P x × All P xs

  pub length-append : (xs ys : List A) → length (xs ++ ys) ≡ length xs + length ys
  length-append [] ys = omega arith
  length-append (x ∷ xs) ys = omega (arith, length-append xs ys)

  pub get_last?-append : (xs : List A) (x : A) → get_last? (xs ++ x ∷ []) ≡ some x
  get_last?-append [] x = refl
  get_last?-append (y ∷ []) x = refl
  get_last?-append (y ∷ z ∷ xs) x = get_last?-append (z ∷ xs) x

module _ {ℓ} {A : Type ℓ} (p : A → Bool) where
  pub select-append : (xs ys : List A) → select p (xs ++ ys) ≡ select p xs ++ select p ys
  select-append [] ys = refl
  select-append (x ∷ xs) ys = ground (arith, select-append xs ys)

  pub length-select-le : (xs : List A) → length (select p xs) ≤ length xs
  length-select-le [] = omega arith
  length-select-le (x ∷ xs) = ground (arith, length-select-le xs)

  -- Every element that was selected passes the test.
  pub All-select : (xs : List A) → All (λ a. p a ≡ true) (select p xs)
  All-select [] = tt
  All-select (x ∷ xs) = elim (Bool-cases (p x)) [
    | inl keep ↦ rw keep (keep, All-select xs)
    | inr drop ↦ rw drop (All-select xs)
  ]

module _ {ℓ κ} {A : Type ℓ} (P : A → Type κ) where
  pub All-get_elem? : (xs : List A) (i : ℕ) {a : A} → All P xs → get_elem? xs i ≡ some a → P a
  All-get_elem? [] i all h = absurd (cc)
  All-get_elem? (x ∷ xs) zero all h = subst P (some-injective x _ h) all.0
  All-get_elem? (x ∷ xs) (suc i) all h = All-get_elem? xs i all.1 h

  pub All-append : (xs ys : List A) → All P xs → All P ys → All P (xs ++ ys)
  All-append [] ys h k = k
  All-append (x ∷ xs) ys h k = (h.0, All-append xs ys h.1 k)

  pub All-select_of : (q : A → Bool) (xs : List A) → All P xs → All P (select q xs)
  All-select_of q [] h = tt
  All-select_of q (x ∷ xs) h = elim (Bool-cases (q x)) [
    | inl keep ↦ rw keep (h.0, All-select_of q xs h.1)
    | inr drop ↦ rw drop (All-select_of q xs h.1)
  ]

-- A stricter test selects less; strictly less, if it drops an element.
module _ {ℓ} {A : Type ℓ} (p q : A → Bool) where
  pub length-select_mono :
      (xs : List A)
      → ((x : A) → Memᴰ x xs → q x ≡ true → p x ≡ true)
      → length (select q xs) ≤ length (select p xs)
  length-select_mono [] h = omega arith
  length-select_mono (x ∷ xs) h =
      ground (arith, h x (Memᴰ.head refl), length-select_mono xs (λ y m. h y (Memᴰ.tail m)))

  pub length-select-lt :
      (xs : List A)
      → ((x : A) → Memᴰ x xs → q x ≡ true → p x ≡ true)
      → (y : A) → Memᴰ y xs
      → p y ≡ true
      → q y ≡ false
      → length (select q xs) < length (select p xs)
  length-select-lt [] h y m py qy = absurd (Memᴰ.not-nil m)
  length-select-lt (x ∷ xs) h y m py qy = elim (Memᴰ.cases_cons m) [
    | inl e ↦ ground (arith, ap p e, ap q e, length-select_mono xs (λ z n. h z (Memᴰ.tail n)))
    | inr later ↦
        ground (
          arith,
          h x (Memᴰ.head refl),
          length-select-lt xs (λ z n. h z (Memᴰ.tail n)) y later py qy,
        )
  ]
