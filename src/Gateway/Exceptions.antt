-- ===== src/Gateway/Exceptions.antt =====
-- The exceptions that the gateway's code (apps/api-gateway/app) raises, and a result with one.
use session_replica_ielt.Prelude.{◌≡◌, refl, ◌⊎◌, inl, inr}
use session_replica_ielt.Fsm.{InvalidTransitionError}

pub data Error : Type 0 where
  invalid_transition : InvalidTransitionError → Error
  key_error value_error integrity_error runtime_error attribute_error bridge_error : Error
  -- no exception: the depth that a recursion of the model was given is used up
  out_of_fuel : Error

pub data Result {ℓ} (A : Type ℓ) : Type ℓ where
  ok : A → Result A
  err : Error → Result A

infixl 5 ◌>>=◌
abbrev pub ◌>>=◌ {ℓ κ} : {A : Type ℓ} {B : Type κ} → Result A → (A → Result B) → Result B
ok a >>= f = f a
err e >>= f = err e

pub Result-cases {ℓ} :
    {A : Type ℓ} (r : Result A) → ((a : A) × (r ≡ ok a)) ⊎ ((e : Error) × (r ≡ err e))
Result-cases (ok a) = inl (a, refl)
Result-cases (err e) = inr (e, refl)
