-- ===== src/Worker/Jobs/Runs.antt =====
-- What repeated deliveries of a task leave in the table (apps/worker/job_status.py).
use session_replica_ielt.Prelude.{
  ℕ, suc, ◌+◌, ◌≤◌, String, ◌≡◌, ◌≢◌, ◌⊎◌, refl, ap, sym, ◌∙◌, Bool, true, false, ◌&&◌, Option,
  none, some, List, [], ◌∷◌, ◌==◌, str_eq, str_eq_iff, arith, ==_refl, ==_iff, Bool-cases, inl, inr,
  if◌then◌else◌, length, max,
}
use session_replica_ielt.Worker.Jobs.{
  GradingJob, JobResult, succeeded, failed, is_job, find_job, upsert, first_run, run_again,
  mark_running, mark_succeeded, mark_failed, result_of, load_result, Ended, returned, raised,
  finish, deliver,
}

is_job_self : (j : GradingJob) → is_job j.session_id j.task_name j ≡ true
is_job_self j = rw (==_refl j.session_id, (str_eq_iff j.task_name j.task_name).1 refl) refl

-- What the row of a key becomes.
abbrev upserted : GradingJob → (GradingJob → GradingJob) → Option GradingJob → GradingJob
upserted new change none = new
upserted new change (some j) = change j

-- The rows of a key.
abbrev pub count_jobs : ℕ → String → List GradingJob → ℕ
count_jobs s name [] = 0
count_jobs s name (j ∷ js) = (if is_job s name j then 1 else 0) + count_jobs s name js

module _ (new : GradingJob) (change : GradingJob → GradingJob)
    (same_key : (j : GradingJob)
      → ((change j).session_id ≡ j.session_id) × ((change j).task_name ≡ j.task_name)) where
  find-upsert :
      (js : List GradingJob)
      → find_job new.session_id new.task_name (upsert new change js)
        ≡ some (upserted new change (find_job new.session_id new.task_name js))
  unfolding find_job upsert
  find-upsert [] = rw (is_job_self new) refl
  find-upsert (j ∷ js) = elim (Bool-cases (is_job new.session_id new.task_name j)) [
    | inl hit ↦ rw hit (rw ((same_key j).0, (same_key j).1, hit) refl)
    | inr miss ↦ rw (miss, miss) (find-upsert js)
  ]

  -- Another key's row is not touched.
  find-upsert_other :
      (s : ℕ) (name : String) (js : List GradingJob)
      → ((j : GradingJob) → is_job new.session_id new.task_name j ≡ true → is_job s name j ≡ false)
      → find_job s name (upsert new change js) ≡ find_job s name js
  unfolding find_job upsert
  find-upsert_other s name [] other = rw (other new (is_job_self new)) refl
  find-upsert_other s name (j ∷ js) other =
      elim (Bool-cases (is_job new.session_id new.task_name j)) [
        | inl hit ↦ rw hit (rw ((same_key j).0, (same_key j).1, other j hit) refl)
        | inr miss ↦ rw miss (rw (find-upsert_other s name js other) refl)
      ]

  -- An upsert adds a row of its key only where there is none.
  count-upsert :
      (js : List GradingJob)
      → count_jobs new.session_id new.task_name (upsert new change js)
        ≡ max 1 (count_jobs new.session_id new.task_name js)
  unfolding upsert
  count-upsert [] = rw (is_job_self new) refl
  count-upsert (j ∷ js) = elim (Bool-cases (is_job new.session_id new.task_name j)) [
    | inl hit ↦ rw hit (rw ((same_key j).0, (same_key j).1, hit) (omega arith))
    | inr miss ↦ rw (miss, miss) (omega (arith, count-upsert js))
  ]

-- The row of a delivery while it runs.
abbrev ran : ℕ → ℕ → String → Option GradingJob → GradingJob
ran now s name o = upserted (first_run now s name) (run_again now) o

find-mark_running :
    (now s : ℕ) (name : String) (js : List GradingJob)
    → find_job s name (mark_running now s name js) ≡ some (ran now s name (find_job s name js))
unfolding mark_running
find-mark_running now s name js =
    find-upsert (first_run now s name) (run_again now) (λ j. (refl, refl)) js

-- A delivery's row.
abbrev finished : ℕ → Ended → GradingJob → GradingJob
finished now (returned result) j = record j {
  status = succeeded;
  result = some result;
  error = none;
  finished_at = some now;
}
finished now (raised error) j = record j {
  status = failed;
  error = some error;
  finished_at = some now;
}

find-finish :
    (now s : ℕ) (name : String) (ended : Ended) (js : List GradingJob) {j : GradingJob}
    → find_job s name js ≡ some j
    → find_job s name (finish now s name ended js) ≡ some (finished now ended j)
unfolding finish mark_succeeded mark_failed
find-finish now s name (returned result) js found =
    find-upsert _ _ (λ j. (refl, refl)) js ∙ rw found refl
find-finish now s name (raised error) js found =
    find-upsert _ _ (λ j. (refl, refl)) js ∙ rw found refl

-- After a delivery the row of the task has run once more, has the status, the error and, if the
-- body returned, the result of the delivery; if it raised, the result of the last success is still
-- there.
pub deliver_row :
    (now s : ℕ) (name : String) (ended : Ended) (js : List GradingJob)
    → find_job s name (deliver now s name ended js)
      ≡ some (finished now ended (ran now s name (find_job s name js)))
unfolding deliver
deliver_row now s name ended js =
    find-finish now s name ended (mark_running now s name js) (find-mark_running now s name js)

-- Deliveries, in order.
unfoldable pub deliver_all : ℕ → ℕ → String → List Ended → List GradingJob → List GradingJob
deliver_all now s name [] js = js
deliver_all now s name (e ∷ es) js = deliver_all now s name es (deliver now s name e js)

abbrev pub attempts_of : Option GradingJob → ℕ
attempts_of none = 0
attempts_of (some j) = j.attempt

-- The result of the last delivery that returned, or the one from before.
abbrev pub last_result : List Ended → Option JobResult → Option JobResult
last_result [] r = r
last_result (returned result ∷ es) r = last_result es (some result)
last_result (raised error ∷ es) r = last_result es r

ran-attempts :
    (now s : ℕ) (name : String) (ended : Ended) (o : Option GradingJob)
    → (finished now ended (ran now s name o)).attempt ≡ suc (attempts_of o)
ran-attempts now s name (returned result) none = refl
ran-attempts now s name (raised error) none = refl
ran-attempts now s name (returned result) (some j) = omega arith
ran-attempts now s name (raised error) (some j) = omega arith

ran-result :
    (now s : ℕ) (name : String) (o : Option GradingJob) → (ran now s name o).result ≡ result_of o
ran-result now s name none = refl
ran-result now s name (some j) = refl

-- However often a task is delivered, its attempts are counted: one for each delivery.
pub deliver_all-attempts :
    (now s : ℕ) (name : String) (es : List Ended) (js : List GradingJob)
    → attempts_of (find_job s name (deliver_all now s name es js))
      ≡ attempts_of (find_job s name js) + length es
unfolding deliver_all
deliver_all-attempts now s name [] js = omega arith
deliver_all-attempts now s name (e ∷ es) js =
    let one : attempts_of (find_job s name (deliver now s name e js))
        ≡ suc (attempts_of (find_job s name js)) =
      ap attempts_of (deliver_row now s name e js)
      ∙ ran-attempts now s name e (find_job s name js) in
    omega (arith, deliver_all-attempts now s name es (deliver now s name e js), one)

-- A failed delivery never loses the result of an earlier success: what `load_result` gives after
-- any deliveries is the result of the last one that returned, and the result from before if none
-- did.
pub deliver_all-load_result :
    (now s : ℕ) (name : String) (es : List Ended) (js : List GradingJob)
    → load_result s name (deliver_all now s name es js) ≡ last_result es (load_result s name js)
unfolding deliver_all load_result
deliver_all-load_result now s name [] js = refl
deliver_all-load_result now s name (returned result ∷ es) js =
    deliver_all-load_result now s name es (deliver now s name (returned result) js)
    ∙ ap (λ o. last_result es (result_of o)) (deliver_row now s name (returned result) js)
deliver_all-load_result now s name (raised error ∷ es) js =
    deliver_all-load_result now s name es (deliver now s name (raised error) js)
    ∙ ap (last_result es) (
        ap result_of (deliver_row now s name (raised error) js)
        ∙ ran-result now s name (find_job s name js))

count-finish :
    (now s : ℕ) (name : String) (ended : Ended) (js : List GradingJob)
    → count_jobs s name (finish now s name ended js) ≡ max 1 (count_jobs s name js)
unfolding finish mark_succeeded mark_failed
count-finish now s name (returned result) js = count-upsert _ _ (λ j. (refl, refl)) js
count-finish now s name (raised error) js = count-upsert _ _ (λ j. (refl, refl)) js

-- A delivery leaves one row of its session and task where there was at most one before.
pub deliver_one_row :
    (now s : ℕ) (name : String) (ended : Ended) (js : List GradingJob)
    → count_jobs s name js ≤ 1
    → count_jobs s name (deliver now s name ended js) ≡ 1
unfolding deliver mark_running
deliver_one_row now s name ended js at_most = omega (
  arith,
  at_most,
  count-finish now s name ended (mark_running now s name js),
  count-upsert (first_run now s name) (run_again now) (λ j. (refl, refl)) js,
)

and-both : (a b : Bool) → (a && b) ≡ true → (a ≡ true) × (b ≡ true)
and-both true b h = (refl, h)
and-both false b h = absurd (ground (arith, h))

is_job-true :
    (s : ℕ) (name : String) (j : GradingJob)
    → is_job s name j ≡ true
    → (j.session_id ≡ s) × (j.task_name ≡ name)
is_job-true s name j h =
    let (same_s, same_name) = and-both (j.session_id == s) (str_eq j.task_name name) h in
    ((==_iff j.session_id s).0 same_s, (str_eq_iff j.task_name name).0 same_name)

other_key :
    (s s' : ℕ) (name name' : String) (j : GradingJob)
    → (s' ≢ s) ⊎ (name' ≢ name)
    → is_job s name j ≡ true
    → is_job s' name' j ≡ false
other_key s s' name name' j other hit = elim (Bool-cases (is_job s' name' j)) [
  | inr miss ↦ miss
  | inl hit_too ↦
      let (same_s, same_name) = is_job-true s name j hit in
      let (same_s', same_name') = is_job-true s' name' j hit_too in
      elim other [
        | inl ne ↦ absurd (ne (sym same_s' ∙ same_s))
        | inr ne ↦ absurd (ne (sym same_name' ∙ same_name))
      ]
]

find-finish_other :
    (now s s' : ℕ) (name name' : String) (ended : Ended) (js : List GradingJob)
    → (s' ≢ s) ⊎ (name' ≢ name)
    → find_job s' name' (finish now s name ended js) ≡ find_job s' name' js
unfolding finish mark_succeeded mark_failed
find-finish_other now s s' name name' (returned result) js other =
    find-upsert_other _ _ (λ j. (refl, refl)) s' name' js (λ j. other_key s s' name name' j other)
find-finish_other now s s' name name' (raised error) js other =
    find-upsert_other _ _ (λ j. (refl, refl)) s' name' js (λ j. other_key s s' name name' j other)

-- A delivery of one task does not touch the row of another task or of another session.
pub deliver_others :
    (now s s' : ℕ) (name name' : String) (ended : Ended) (js : List GradingJob)
    → (s' ≢ s) ⊎ (name' ≢ name)
    → find_job s' name' (deliver now s name ended js) ≡ find_job s' name' js
unfolding deliver mark_running
deliver_others now s s' name name' ended js other =
    find-finish_other now s s' name name' ended (mark_running now s name js) other
    ∙ find-upsert_other (first_run now s name) (run_again now) (λ j. (refl, refl)) s' name' js
        (λ j. other_key s s' name name' j other)
