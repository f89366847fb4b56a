-- ===== src/Pipeline/Recorded.antt =====
-- What `AskQuestion` of internal/controlplane/controller/query.go leaves in the table of query runs.
use mission.Prelude.{
  ℕ, suc, ◌≡◌, refl, sym, ap, ◌∙◌, ◌⊎◌, inl, inr, arith, Bool-cases, true, false, List, [], ◌∷◌,
  ◌++◌, In, nat_beq, if◌then◌else◌,
}
use mission.Prelude.Actions.{Result, ok, err, ◌>>◌, pure, raise, bind-ok, bind-err}
use mission.Prelude.Text.{Text}
use mission.SqlGuard.Ast.{SqlLib}
use mission.Pipeline.{AskQuestionAttempt}
use mission.Pipeline.Executed.{IsApproved}
use mission.Pipeline.Runs.{
  Warning, QueryRun, running, run_succeeded, run_failed, Runs, nullable_string, Completed,
  completed, has_run, complete_run, failed_with,
}
use mission.Pipeline.Question.{AskQuestionResult, AskError, Failure, Env, Store, store_error}
use mission.Pipeline.Preparation.{complete, complete_failed_query_run}

has_run-append :
    (id : ℕ) (rs : Runs) (r : QueryRun) → nat_beq r.id id ≡ true → has_run id (rs ++ r ∷ []) ≡ true
unfolding has_run
has_run-append id [] r h = ground (arith, h)
has_run-append id (x ∷ xs) r h = ground (arith, has_run-append id xs r h)

complete_run-append :
    (now id : ℕ) (c : Completed) (rs : Runs) (r : QueryRun)
    → nat_beq r.id id ≡ true
    → has_run id rs ≡ false
    → complete_run now id c (rs ++ r ∷ []) ≡ rs ++ completed now c r ∷ []
unfolding has_run complete_run
complete_run-append now id c [] r h n = rw h refl
complete_run-append now id c (x ∷ xs) r h n =
    let e : nat_beq x.id id ≡ false = ground (arith, n) in
    let k : has_run id xs ≡ false = ground (arith, n) in
    rw (e, complete_run-append now id c xs r h k) refl

-- The run is of the tenant and of the user who asked.
pub record IsRunOf (tenant : ℕ) (user : Text) (r : QueryRun) : Type 0 where
  pub tenant_id : r.tenant_id ≡ tenant
  pub clerk_user_id : r.clerk_user_id ≡ user

-- How a request fails: before there is a run, with the run marked as failed with the attempts of the
-- result, or, on an error of the database, with the run still marked as running.
pub data Fails (tenant : ℕ) (user : Text) (w : Store) : Failure → Store → Type 0 where
  refused :
      {f : Failure} {w' : Store} → w'.runs ≡ w.runs → w'.sent ≡ w.sent → Fails tenant user w f w'
  left_running :
      {f : Failure} {w' : Store} (r : QueryRun)
      → IsRunOf tenant user r
      → w'.runs ≡ w.runs ++ r ∷ []
      → r.status ≡ running
      → f.error ≡ store_error
      → Fails tenant user w f w'
  recorded_failure :
      {f : Failure} {w' : Store} (r : QueryRun)
      → IsRunOf tenant user r
      → w'.runs ≡ w.runs ++ r ∷ []
      → r.status ≡ run_failed
      → r.id ≡ f.result.query_run_id
      → r.attempts ≡ f.result.attempts
      → Fails tenant user w f w'

-- A run that is marked as succeeded and has what the result has; its SQL is the guard's rewriting of a text
-- that the guard accepts, and was sent to the agent.
pub record IsRecorded (lib : SqlLib) (a : AskQuestionResult) (sent : List Text) (r : QueryRun)
    : Type 0 where
  pub status : r.status ≡ run_succeeded
  pub id : r.id ≡ a.query_run_id
  pub sql : r.sql_executed ≡ nullable_string a.sql_executed
  pub attempts : r.attempts ≡ a.attempts
  pub warnings : r.warnings ≡ a.warnings
  pub row_count : r.row_count ≡ a.row_count
  pub approved : IsApproved lib a.sql_executed
  pub executed : In a.sql_executed sent

pub data AskEnds (lib : SqlLib) (tenant : ℕ) (user : Text) (w : Store)
    : Result Failure AskQuestionResult × Store → Type 0 where
  ask_failed :
      {f : Failure} {w' : Store} → Fails tenant user w f w' → AskEnds lib tenant user w (err f, w')
  ask_succeeded :
      {a : AskQuestionResult} {w' : Store} (r : QueryRun)
      → IsRunOf tenant user r
      → w'.runs ≡ w.runs ++ r ∷ []
      → IsRecorded lib a w'.sent r
      → AskEnds lib tenant user w (ok a, w')

-- The new identifier is not uuid.Nil and no run's.
pub record IsFresh (w : Store) : Type 0 where
  pub given : nat_beq w.next_id 0 ≡ false
  pub unused : has_run w.next_id w.runs ≡ false

-- A run that was just created, which none of the runs before has the identifier of.
pub record IsNew (tenant : ℕ) (user : Text) (before : Store) (run : QueryRun) : Type 0 where
  pub given : nat_beq run.id 0 ≡ false
  pub unused : has_run run.id before.runs ≡ false
  pub started : run.status ≡ running
  pub owned : IsRunOf tenant user run

module _ (env : Env) (tenant : ℕ) (user : Text) (before : Store) (run : QueryRun)
    (new : IsNew tenant user before run) (w : Store) (here : w.runs ≡ before.runs ++ run ∷ []) where
  abbrev pub called : Store
  called = record w { calls = suc w.calls }

  -- The run is there, so that a completion fails only with the database.
  pub complete_lem :
      (result : AskQuestionResult) (c : Completed)
      → (complete env result run.id c w
          ≡ (err (record { result = result; error = store_error }), called))
        ⊎ (complete env result run.id c w
            ≡ (ok tt, record called { runs = before.runs ++ completed env.now c run ∷ [] }))
  unfolding complete
  complete_lem result c =
      let same : nat_beq run.id run.id ≡ true = ground arith in
      let there = ap (has_run run.id) here ∙ has_run-append run.id before.runs run same in
      let done =
        ap (complete_run env.now run.id c) here
        ∙ complete_run-append env.now run.id c before.runs run same new.unused in
      elim (Bool-cases (env.faults w.calls)) [
        | inl e ↦ inl (rw e refl)
        | inr e ↦ inr (rw (e, there, done) refl)
      ]

  pub still_running : (f : Failure) → f.error ≡ store_error → Fails tenant user before f called
  still_running f e = left_running run new.owned here new.started e

  complete_failed_query_run_lem :
      (result : AskQuestionResult) (attempts : List AskQuestionAttempt) (warnings : List Warning)
      (ids : List ℕ) (stage message : Text)
      → result.query_run_id ≡ run.id
      → complete_failed_query_run env result attempts warnings ids stage message w
        ≡ complete env result run.id (failed_with attempts warnings ids stage message) w
  unfolding complete_failed_query_run
  complete_failed_query_run_lem result attempts warnings ids stage message same =
      ap
        (λ (id : ℕ).
          (if nat_beq id 0
              then pure tt
              else complete env result id (failed_with attempts warnings ids stage message))
            w)
        same
      ∙ rw new.given refl

  -- The completion of a failed run, and then an error.
  pub failed-Fails :
      {A : Type 0} (result : AskQuestionResult) (attempts : List AskQuestionAttempt)
      (warnings : List Warning) (ids : List ℕ) (stage message : Text) (e : AskError)
      → result.query_run_id ≡ run.id
      → result.attempts ≡ attempts
      → (f : Failure) × (w' : Store) × ((complete_failed_query_run env result attempts warnings ids
                stage message
              >> raise {A = A} (record { result = result; error = e }))
            w
          ≡ (err f, w'))
        × Fails tenant user before f w'
  failed-Fails result attempts warnings ids stage message e same tried =
      let c = failed_with attempts warnings ids stage message in
      let step = complete_failed_query_run_lem result attempts warnings ids stage message same in
      elim (complete_lem result c) [
        | inl k ↦ (
          record { result = result; error = store_error },
          called,
          bind-err (complete_failed_query_run env result attempts warnings ids stage message) _ w
              (record { result = result; error = store_error }) called (step ∙ k),
          still_running (record { result = result; error = store_error }) refl,
        )
        | inr k ↦ (
          record { result = result; error = e },
          record called { runs = before.runs ++ completed env.now c run ∷ [] },
          bind-ok (complete_failed_query_run env result attempts warnings ids stage message) _ w tt
              (record called { runs = before.runs ++ completed env.now c run ∷ [] }) (step ∙ k),
          recorded_failure (completed env.now c run)
              (record { tenant_id = new.owned.tenant_id; clerk_user_id = new.owned.clerk_user_id })
              refl refl (sym same) (sym tried),
        )
      ]
