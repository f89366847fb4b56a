-- ===== src/Pipeline/Executed.antt =====
-- What reaches the agent of internal/controlplane/controller/query_pipeline.go.
use mission.Prelude.{
  ℕ, zero, suc, ◌≤◌, ◌≡◌, refl, Bool, true, false, List, [], ◌∷◌, ◌++◌, length, length-append, All,
  All-append, In, In-append_right, arith, Bool-cases, inl, inr, text_beq, if◌then◌else◌,
}
use mission.Prelude.Text.{Text, codes, is_empty}
use mission.SqlGuard.Ast.{SqlLib}
use mission.SqlGuard.Result.{Result}
use mission.SqlGuard.Validate.{Verdict, returned, failed, validate}
use mission.Pipeline.{
  AskQuestionAttempt, AgentRows, Execution, unreachable, executed, Generated, generated,
  generation_error, Outcome, succeeded, gave_up, Cause, Next, stop, retry, after_execution,
  after_guard, after_generation, proceed, denial_reason, note, attempt_from,
  execute_ask_question_pipeline,
}

module _ (lib : SqlLib) where
  -- The text is the guard's rewriting of a text that the guard accepts.
  pub record IsApproved (sent : Text) : Type 0 where
    pub sql : Text
    pub result : Result
    pub accepts : validate lib sql ≡ returned result
    pub ok : result.ok ≡ true
    pub rewritten : sent ≡ result.rewritten_sql

  -- A success is of SQL that the guard accepts, and its rewriting was sent.
  pub data Backed (sent : List Text) : Outcome → Type 0 where
    backed :
        {sql : Text} {r : Result} {answer : AgentRows} {attempts : List AskQuestionAttempt}
        → validate lib sql ≡ returned r
        → r.ok ≡ true
        → In r.rewritten_sql sent
        → Backed sent (succeeded sql r answer attempts)
    no_success :
        {stage message : Text} {cause : Cause} {attempts : List AskQuestionAttempt}
        → Backed sent (gave_up stage message cause attempts)

  data BackedNext (sent : List Text) : Next → Type 0 where
    at_stop : {o : Outcome} → Backed sent o → BackedNext sent (stop o)
    at_retry :
        {sql e : Text} {attempts : List AskQuestionAttempt} → BackedNext sent (retry sql e attempts)

  -- One attempt sends at most one text.
  record Checked (p : Next × List Text) : Type 0 where
    approved : All IsApproved p.1
    few : length p.1 ≤ 1
    next : BackedNext p.1 p.0

  pub Backed-more : (xs ys : List Text) (o : Outcome) → Backed ys o → Backed (xs ++ ys) o
  Backed-more xs ys _ (backed v k i) = backed v k (In-append_right _ xs ys i)
  Backed-more xs ys _ no_success = no_success

  after_execution-Backed :
      (sql : Text) (r : Result) (attempts : List AskQuestionAttempt) (x : Execution)
      → validate lib sql ≡ returned r
      → r.ok ≡ true
      → BackedNext (r.rewritten_sql ∷ []) (after_execution sql r attempts x)
  unfolding after_execution
  after_execution-Backed sql r attempts (unreachable e offline) v k = at_stop no_success
  after_execution-Backed sql r attempts (executed error code reason blocked answer) v k =
      elim (Bool-cases (is_empty error)) [
        | inl h ↦ rw h (at_stop (backed v k (inl refl)))
        | inr h ↦ elim (Bool-cases (text_beq code (codes "PERMISSION_DENIED"))) [
          | inl g ↦ rw (h, g) (at_stop no_success)
          | inr g ↦ rw (h, g) at_retry
        ]
      ]

  -- What holds of the loop's end, with so many attempts left.
  record Sound (left : ℕ) (p : Outcome × List Text) : Type 0 where
    approved : All IsApproved p.1
    few : length p.1 ≤ left
    success : Backed p.1 p.0

  proceed-Sound :
      (left : ℕ) (n : Next) (sent : List Text)
      (again : Text → Text → List AskQuestionAttempt → Outcome × List Text)
      → Checked (n, sent)
      → ((sql e : Text) (noted : List AskQuestionAttempt) → Sound left (again sql e noted))
      → Sound (suc left) (proceed n sent again)
  unfolding proceed
  proceed-Sound left (stop o) sent again c h = record {
    approved = c.approved;
    few = omega (arith, c.few);
    success = stopped c.next;
  }
    where
      stopped : BackedNext sent (stop o) → Backed sent o
      stopped (at_stop b) = b
  proceed-Sound left (retry sql e noted) sent again c h =
      let s = h sql e noted in
      record {
        approved = All-append IsApproved sent (again sql e noted).1 c.approved s.approved;
        few = omega (arith, length-append sent (again sql e noted).1, c.few, s.few);
        success = Backed-more sent (again sql e noted).1 (again sql e noted).0 s.success;
      }

  module _ (generate : ℕ → Text → Text → Generated) (agent : ℕ → Text → Execution) where
    after_guard-Checked :
        (i : ℕ) (sql : Text) (attempts : List AskQuestionAttempt) (d : Verdict)
        → validate lib sql ≡ d
        → Checked (after_guard lib generate agent i sql attempts d)
    unfolding after_guard
    after_guard-Checked i sql attempts (failed e) v = record {
      approved = tt;
      few = omega arith;
      next = at_retry;
    }
    after_guard-Checked i sql attempts (returned r) v = by_ok r.ok refl
      where
        by_ok :
            (b : Bool)
            → r.ok ≡ b
            → Checked (
                if b
                then (
                  after_execution sql r attempts (agent i r.rewritten_sql),
                  r.rewritten_sql ∷ [],
                )
                else (
                  retry sql
                      (denial_reason r)
                      (note sql (denial_reason r) (codes "validation") attempts),
                  [],
                ))
        by_ok true k = record {
          approved = (record { sql = sql; result = r; accepts = v; ok = k; rewritten = refl }, tt);
          few = omega arith;
          next = after_execution-Backed sql r attempts (agent i r.rewritten_sql) v k;
        }
        by_ok false k = record { approved = tt; few = omega arith; next = at_retry }

    after_generation-Checked :
        (i : ℕ) (attempts : List AskQuestionAttempt) (g : Generated)
        → Checked (after_generation lib generate agent i attempts g)
    unfolding after_generation
    after_generation-Checked i attempts (generation_error e) = record {
      approved = tt;
      few = omega arith;
      next = at_stop no_success;
    }
    after_generation-Checked i attempts (generated sql) = after_guard-Checked i sql attempts _ refl

    attempt_from-Sound :
        (left i : ℕ) (prior_sql prior_error : Text) (attempts : List AskQuestionAttempt)
        → Sound left (attempt_from lib generate agent left i prior_sql prior_error attempts)
    unfolding attempt_from
    attempt_from-Sound zero i prior_sql prior_error attempts = record {
      approved = tt;
      few = omega arith;
      success = no_success;
    }
    attempt_from-Sound (suc left) i prior_sql prior_error attempts =
        proceed-Sound left _ _ _
          (after_generation-Checked i attempts (generate i prior_sql prior_error))
          (λ sql e noted. attempt_from-Sound left (suc i) sql e noted)

    -- Whatever the model and the agent answer: every text that is sent to the agent is the guard's
    -- rewriting of a text that the guard accepts, at most two are sent, and if the pipeline succeeds, it is
    -- with a text that the guard accepts and whose rewriting was sent.
    pub execute_ask_question_pipeline-IsApproved :
        All IsApproved (execute_ask_question_pipeline lib generate agent).1
        × ((length (execute_ask_question_pipeline lib generate agent).1 ≤ 2)
            × Backed
                (execute_ask_question_pipeline lib generate agent).1
                (execute_ask_question_pipeline lib generate agent).0)
    unfolding execute_ask_question_pipeline
    execute_ask_question_pipeline-IsApproved =
        let s = attempt_from-Sound 2 0 [] [] [] in (s.approved, (s.few, s.success))
