-- ===== src/Gateway/Accounts/Login.antt =====
-- A login and the requests after it (apps/api-gateway/app/routers/auth.py, app/deps.py).
use session_replica_ielt.Prelude.{
  ℕ, ◌+◌, ◌*◌, ◌≤◌, ◌≡◌, refl, ap, inl, inr, ◌==◌, ==_refl, String, str_eq_iff, Option, none, some,
  Option-cases, false, List, [], ◌∷◌, ◌++◌, All, arith,
}
use session_replica_ielt.Gateway.Exceptions.{ok}
use session_replica_ielt.Gateway.Tables.{Candidate, Db, find_candidate}
use session_replica_ielt.Gateway.Accounts.{
  responded, find_email, new_candidate, LoginResponse, issue_access_token, with_token,
  commit_candidate, login_after_read, login, get_current_candidate,
}

-- The id is the primary key.
abbrev pub UniqueIds : List Candidate → Type 0
UniqueIds [] = Unit
UniqueIds (c ∷ cs) = All (λ (d : Candidate). (c.id == d.id) ≡ false) cs × UniqueIds cs

-- A candidate found by email is the one with its id.
find-email-email :
    (email : String) (cs : List Candidate) {c : Candidate}
    → find_email email cs ≡ some c
    → c.email ≡ email
unfolding find_email
find-email-email email [] h = ground arith
find-email-email email (d ∷ cs) {c} h =
    ground (arith, str_eq_iff d.email email, find-email-email email cs {c = c})

find-All :
    (i : ℕ) (email : String) (cs : List Candidate) {c : Candidate}
    → All (λ (d : Candidate). (i == d.id) ≡ false) cs
    → find_email email cs ≡ some c
    → (i == c.id) ≡ false
unfolding find_email
find-All i email [] all h = ground arith
find-All i email (d ∷ cs) {c} all h = ground (arith, find-All i email cs {c = c} all.1, all.0)

pub find_candidate-find_email :
    (email : String) (cs : List Candidate) {c : Candidate}
    → UniqueIds cs
    → find_email email cs ≡ some c
    → find_candidate c.id cs ≡ some c
unfolding find_email find_candidate
find_candidate-find_email email [] u h = ground arith
find_candidate-find_email email (d ∷ cs) {c} u h = ground (
  arith,
  find_candidate-find_email email cs {c = c} u.1,
  find-All d.id email cs {c = c} u.0,
  ==_refl d.id,
  h,
)

find_candidate-append :
    (c : Candidate) (cs : List Candidate)
    → find_candidate c.id cs ≡ none
    → find_candidate c.id (cs ++ c ∷ []) ≡ some c
unfolding find_candidate
find_candidate-append c [] h = ground (arith, ==_refl c.id)
find_candidate-append c (d ∷ cs) h = ground (arith, find_candidate-append c cs)

find_email-append :
    (c : Candidate) (cs : List Candidate)
    → find_email c.email cs ≡ none
    → find_email c.email (cs ++ c ∷ []) ≡ some c
unfolding find_email
find_email-append c [] h = ground (arith, str_eq_iff c.email c.email)
find_email-append c (d ∷ cs) h = ground (arith, find_email-append c cs)

commit_candidate_new :
    (c : Candidate) (db : Db)
    → find_email c.email db.candidates ≡ none
    → commit_candidate c db ≡ (ok c.id, record db { candidates = db.candidates ++ c ∷ [] })
unfolding commit_candidate
commit_candidate_new c db unknown = rw (unknown, commit_candidate) refl

module _ {Token : Type 0} (sign : ℕ → ℕ → Token) (verify : ℕ → Token → Option ℕ) (ttl_minutes : ℕ)
    (valid : (i expires_at now : ℕ)
      → now ≤ expires_at
      → verify now (sign i expires_at) ≡ some i) where
  login_known :
      (now id : ℕ) (email full_name : String) (db : Db) {c : Candidate}
      → find_email email db.candidates ≡ some c
      → login sign ttl_minutes now id email full_name db ≡ (
        ok (record {
          access_token = issue_access_token sign ttl_minutes now c.id;
          candidate_id = c.id;
        }),
        db,
      )
  unfolding login login_after_read
  login_known now id email full_name db known = rw (known, login) refl

  login_new :
      (now id : ℕ) (email full_name : String) (db : Db)
      → find_email email db.candidates ≡ none
      → login sign ttl_minutes now id email full_name db ≡ (
        ok (record {
          access_token = issue_access_token sign ttl_minutes now id;
          candidate_id = id;
        }),
        record db { candidates = db.candidates ++ new_candidate id email full_name ∷ [] },
      )
  unfolding login login_after_read
  login_new now id email full_name db unknown =
      rw (unknown, login)
        (ap (with_token sign ttl_minutes now)
          (commit_candidate_new (new_candidate id email full_name) db unknown))

  token_known :
      (now t i : ℕ) (db : Db) {c : Candidate}
      → find_candidate i db.candidates ≡ some c
      → t ≤ now + 60000 * ttl_minutes
      → get_current_candidate verify t (issue_access_token sign ttl_minutes now i) db ≡ responded c
  unfolding get_current_candidate
  token_known now t i db known in_time =
      rw (valid i (now + 60000 * ttl_minutes) t in_time, known, get_current_candidate) refl

  -- If a token that is not past its expiry verifies as its subject, and a new candidate's id is new, a
  -- login succeeds, and its token stands for the one candidate of that email until it expires; a
  -- later login with the email gives the same candidate and writes nothing.
  pub login_authenticates :
      (now id : ℕ) (email full_name : String) (db : Db)
      → UniqueIds db.candidates
      → find_candidate id db.candidates ≡ none
      → let (result, after) = login sign ttl_minutes now id email full_name db in
        (r : LoginResponse Token) × (result ≡ ok r)
        × ((c : Candidate) × (c.email ≡ email)
            × (c.id ≡ r.candidate_id)
            × ((t : ℕ)
                → t ≤ now + 60000 * ttl_minutes
                → get_current_candidate verify t r.access_token after ≡ responded c))
        × ((later id' : ℕ) (name : String)
            → login sign ttl_minutes later id' email name after ≡ (
              ok (record {
                access_token = issue_access_token sign ttl_minutes later r.candidate_id;
                candidate_id = r.candidate_id;
              }),
              after,
            ))
  login_authenticates now id email full_name db unique fresh =
      elim (Option-cases (find_email email db.candidates)) [
        | inr (c, known) ↦ rw (login_known now id email full_name db known) (
          _,
          refl,
          (
            c,
            find-email-email email db.candidates known,
            refl,
            λ t.
                token_known now t c.id db
                  (find_candidate-find_email email db.candidates unique known),
          ),
          λ later id' name. login_known later id' email name db known,
        )
        | inl unknown ↦
            let c : Candidate = new_candidate id email full_name in
            let after : Db = record db { candidates = db.candidates ++ c ∷ [] } in
            rw (login_new now id email full_name db unknown) (
              _,
              refl,
              (
                c,
                refl,
                refl,
                λ t. token_known now t id after (find_candidate-append c db.candidates fresh),
              ),
              λ later id' name.
                  login_known later id' email name after
                    (find_email-append c db.candidates unknown),
            )
      ]
