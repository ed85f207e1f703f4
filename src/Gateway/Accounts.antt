-- ===== src/Gateway/Accounts.antt =====
-- apps/api-gateway/app/routers/auth.py and app/deps.py: a candidate logs in with an email and gets a
-- token, by which the other routes know the candidate. The tokens are those of a library; `sign` and
-- `verify` are parameters.
pub mod Login
use session_replica_ielt.Prelude.{
  ℕ, ◌+◌, ◌*◌, String, str_eq, Option, none, some, List, [], ◌∷◌, ◌++◌, if◌then◌else◌,
}
use session_replica_ielt.Gateway.Exceptions.{integrity_error, Result, ok, err}
use session_replica_ielt.Gateway.Tables.{Candidate, Db, find_candidate}

-- What a route answers: a value, or an `HTTPException` or a `WebSocketException` with its status.
pub data HttpError : Type 0 where
  unauthorized not_found policy_violation : HttpError

pub data Response {ℓ} (A : Type ℓ) : Type ℓ where
  responded : A → Response A
  failed : HttpError → Response A

-- `select(Candidate).where(Candidate.email == email)`
unfoldable pub find_email : String → List Candidate → Option Candidate
find_email email [] = none
find_email email (c ∷ cs) = if str_eq c.email email then some c else find_email email cs

-- `Candidate(email=body.email, full_name=body.full_name)`, with the id that the table draws.
abbrev pub new_candidate : ℕ → String → String → Candidate
new_candidate id email full_name = record {
  id = id;
  email = email;
  full_name = full_name;
  previous_topic_sets = [];
}

pub record LoginResponse (Token : Type 0) : Type 0 where
  pub access_token : Token
  pub candidate_id : ℕ

-- The insert, whose commit raises where the email is taken.
unfoldable pub commit_candidate : Candidate → Db → Result ℕ × Db
unfolding find_email
commit_candidate c db = elim (find_email c.email db.candidates) [
  | some taken ↦ (err integrity_error, db)
  | none ↦ (ok c.id, record db { candidates = db.candidates ++ c ∷ [] })
]

module _ {Token : Type 0} (sign : ℕ → ℕ → Token) (ttl_minutes : ℕ) where
  -- `_issue_access_token`; `sign` gets the subject and the time of expiry.
  abbrev pub issue_access_token : ℕ → ℕ → Token
  issue_access_token now candidate_id = sign candidate_id (now + 60000 * ttl_minutes)

  abbrev pub with_token : ℕ → Result ℕ × Db → Result (LoginResponse Token) × Db
  with_token now (ok i, db) =
      (ok (record { access_token = issue_access_token now i; candidate_id = i }), db)
  with_token now (err e, db) = (err e, db)

  -- The rest of `login`, with the candidate that was read. Another login may have committed in
  -- between.
  unfoldable pub login_after_read :
      Option Candidate → ℕ → ℕ → String → String → Db → Result (LoginResponse Token) × Db
  unfolding commit_candidate
  login_after_read (some c) now id email full_name db = with_token now (ok c.id, db)
  login_after_read none now id email full_name db =
      with_token now (commit_candidate (new_candidate id email full_name) db)

  -- `login`; `id` is the id that a new candidate gets.
  unfoldable pub login : ℕ → ℕ → String → String → Db → Result (LoginResponse Token) × Db
  unfolding login_after_read
  login now id email full_name db =
      login_after_read (find_email email db.candidates) now id email full_name db

-- `get_current_candidate`; `verify` gives the subject, and `none` for a token that is malformed, forged
-- or expired.
unfoldable pub get_current_candidate :
    {Token : Type 0} → (ℕ → Token → Option ℕ) → ℕ → Token → Db → Response Candidate
get_current_candidate verify now token db = elim (verify now token) [
  | none ↦ failed unauthorized
  | some i ↦ elim (find_candidate i db.candidates) [
    | none ↦ failed unauthorized
    | some c ↦ responded c
  ]
]
