-- ===== src/Pipeline.antt =====
-- internal/controlplane/controller/query_pipeline.go: the attempts to answer a question with SQL. The
-- model's answers and the agent's are parameters, which may differ from attempt to attempt; they are
-- given the attempt's number. Runs and Ask have what goes on before and after the attempts.
mod Executed
mod Runs
mod Question
mod Preparation
mod Ask
mod Recorded
mod Reading
mod Asked
mod Tests
use mission.Prelude.{
  ℕ, zero, suc, Bool, true, false, not, Option, none, some, List, [], ◌∷◌, ◌++◌, map, if◌then◌else◌,
  ◌&&◌,
}
use mission.Prelude.Text.{Text, codes, is_empty, trim_space}
use mission.Prelude.Equality.{text_beq}
use mission.SqlGuard.Ast.{SqlLib}
use mission.SqlGuard.Result.{Result}
use mission.SqlGuard.Validate.{Verdict, returned, failed, validate}

pub record AskQuestionAttempt : Type 0 where
  pub sql : Text
  pub error : Text
  pub stage : Text

-- Of the agent's rows, what is stored.
pub record AgentRows : Type 0 where
  pub row_count : ℕ
  pub elapsed_ms : ℕ

-- What `ExecuteQuery` of the sessions returns, as far as the loop reads it: an error, of which it matters
-- whether it is one of the three that mean an absent agent, or a result with its error fields and rows.
pub data Execution : Type 0 where
  unreachable : Text → Bool → Execution
  executed : Text → Text → Text → List Text → AgentRows → Execution

-- The model's SQL or the text of its error.
pub data Generated : Type 0 where
  generated : Text → Generated
  generation_error : Text → Generated

pub data Cause : Type 0 where
  agent_offline all_attempts_failed : Cause
  generate_sql execute_query : Text → Cause

-- How the loop ends: with the original SQL, the guard's result and the attempts, or with the stage, the
-- message and the error that the caller gets.
pub data Outcome : Type 0 where
  succeeded : Text → Result → AgentRows → List AskQuestionAttempt → Outcome
  gave_up : Text → Text → Cause → List AskQuestionAttempt → Outcome

-- `strings.Join(xs, ", ")`.
abbrev pub join : List Text → Text
join [] = []
join (x ∷ []) = x
join (x ∷ y ∷ rest) = x ++ codes ", " ++ join (y ∷ rest)

abbrev is_none {ℓ} : {A : Type ℓ} → List A → Bool
is_none [] = true
is_none (_ ∷ _) = false

-- The guard's reason, with what it blocked.
unfoldable pub denial_reason : Result → Text
denial_reason r =
    if is_none r.blocked_constructs
    then codes r.reason
    else codes r.reason ++ codes " (blocked: " ++ join (map codes r.blocked_constructs) ++ codes ")"

-- `formatExecutionError`, of the fields Error, ErrorReason and BlockedConstructs.
unfoldable pub format_execution_error : Text → Text → List Text → Text
format_execution_error error reason blocked =
    if not (is_empty reason)
    then (if is_none blocked then reason else reason ++ codes " (" ++ join blocked ++ codes ")")
    else if not (is_empty error)
    then error
    else codes "unknown execution error"

-- The first text that is not blank, from the last attempt on.
unfoldable pub last_of : List Text → Text
last_of [] = []
last_of (x ∷ xs) =
    let rest = last_of xs in
    if not (is_empty (trim_space rest))
    then rest
    else if not (is_empty (trim_space x))
    then x
    else []

abbrev error_stage_from_attempts : List AskQuestionAttempt → Text
error_stage_from_attempts attempts = last_of (map (λ a. a.stage) attempts)

abbrev last_attempt_error : List AskQuestionAttempt → Text
last_attempt_error attempts = last_of (map (λ a. a.error) attempts)

-- What an attempt leads to: the end, or another attempt with the SQL and the error to tell the model; and
-- the SQL that was sent to the agent, if any.
pub data Next : Type 0 where
  stop : Outcome → Next
  retry : Text → Text → List AskQuestionAttempt → Next

abbrev note : Text → Text → Text → List AskQuestionAttempt → List AskQuestionAttempt
note sql error stage attempts = attempts ++ record { sql = sql; error = error; stage = stage } ∷ []

unfoldable pub after_execution : Text → Result → List AskQuestionAttempt → Execution → Next
unfolding format_execution_error
after_execution sql guard attempts (unreachable e offline) =
    let noted = note guard.rewritten_sql e (codes "execution") attempts in
    stop (gave_up (codes "execution") e (if offline then agent_offline else execute_query e) noted)
after_execution sql guard attempts (executed error code reason blocked answer) =
    if is_empty error
    then stop (succeeded sql guard answer (note sql [] (codes "execution") attempts))
    else (let e = format_execution_error error reason blocked in
        let noted = note guard.rewritten_sql e (codes "execution") attempts in
        if text_beq code (codes "PERMISSION_DENIED")
        then stop (gave_up (codes "execution") e all_attempts_failed noted)
        else retry sql e noted)

-- The loop goes on with `again`.
unfoldable pub proceed :
    Next
    → List Text
    → (Text → Text → List AskQuestionAttempt → Outcome × List Text)
    → Outcome × List Text
proceed (stop o) sent again = (o, sent)
proceed (retry sql e noted) sent again = let (o, more) = again sql e noted in (o, sent ++ more)

module _ (lib : SqlLib) (generate : ℕ → Text → Text → Generated)
    (agent : ℕ → Text → Execution) where
  unfoldable pub after_guard : ℕ → Text → List AskQuestionAttempt → Verdict → Next × List Text
  unfolding after_execution denial_reason
  after_guard i sql attempts (failed e) =
      (retry sql (codes e) (note sql (codes e) (codes "validation") attempts), [])
  after_guard i sql attempts (returned r) =
      if r.ok
      then (after_execution sql r attempts (agent i r.rewritten_sql), r.rewritten_sql ∷ [])
      else (
        retry sql (denial_reason r) (note sql (denial_reason r) (codes "validation") attempts),
        [],
      )

  unfoldable pub after_generation : ℕ → List AskQuestionAttempt → Generated → Next × List Text
  unfolding after_guard
  after_generation i attempts (generation_error e) = (
    stop
        (gave_up (codes "generation") e (generate_sql e) (note [] e (codes "generation") attempts)),
    [],
  )
  after_generation i attempts (generated sql) = after_guard i sql attempts (validate lib sql)

  -- `left` attempts are left, and this is number `i`; the second result is the SQL sent to the agent.
  unfoldable pub attempt_from : ℕ → ℕ → Text → Text → List AskQuestionAttempt → Outcome × List Text
  unfolding after_generation proceed
  attempt_from zero i prior_sql prior_error attempts = (
    gave_up (error_stage_from_attempts attempts) (last_attempt_error attempts) all_attempts_failed
        attempts,
    [],
  )
  attempt_from (suc left) i prior_sql prior_error attempts =
      let (next, sent) = after_generation i attempts (generate i prior_sql prior_error) in
      proceed next sent (λ sql e noted. attempt_from left (suc i) sql e noted)

  unfoldable pub execute_ask_question_pipeline : Outcome × List Text
  unfolding attempt_from
  execute_ask_question_pipeline = attempt_from 2 0 [] [] []
