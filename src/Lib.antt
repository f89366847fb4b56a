-- ===== src/Lib.antt =====
-- The mission repository: a control plane answers questions over a tenant's database by asking a
-- language model for SQL, checking it, and having an edge agent beside the database run it.
--
-- Prelude has the shared notation: native numbers, Boolean tests, lists, texts (lists of code
-- points; Go's strings are taken to be valid UTF-8), association lists for Go's maps, and the methods that change a
-- store and may fail (Actions).
--
-- SqlGuard models internal/sqlguard/sqlguard.go. Ast holds what the code reads of the parser's
-- syntax trees, and the parser itself as a record of parameters (`SqlLib`: parse, the nodes in the
-- order Accept enters them, Restore, the upper case of characters above ASCII). Scan is
-- scanOutsideQuotes with hasCommentToken, outsideQuotesUpper and detectRawDeniedPattern; Visitor is
-- guardVisitor; Kinds has the type switches; Limit is needsLimitInjection; Result has deny and
-- uniqueConstructs; Validate composes them. The scan recurs on the text, so it needs no fuel.
--
-- Llm models internal/controlplane/gateway/llm. Errors has the error chains of errors.go; Breaker is
-- the circuit breaker of breaker.go (`before_call` is beforeCall, `after_call` is afterCall), with
-- the clock's reading as an argument and each locked method as one step; Request has the types of
-- llm.go; Router has NewRouter, orderedProviders and Complete of router.go. What a provider does
-- when it is asked, and the clock's readings around it, are a `Visit`, a parameter. The loop of
-- Complete recurs on the list of candidates, so it needs no fuel. Logging is left out.
--
-- Sessions is internal/controlplane/controller/agent.go, the sessions of the edge agents. Store has
-- the manager's state, with sessions and waiters as cells that byToken, byID and callers share;
-- Manager registers, finds and closes sessions, Commands sends commands and awaits or gives up their
-- results, Results has the Submit methods, Listing the snapshots. Each method, or part of a method
-- under one taking of the mutex, is one step; Reachable has the states that any sequence of steps
-- leads to. Random ids and the clock's readings are arguments, times are numbers, contexts that end
-- are the step `expire`, and logging is left out.
--
-- EdgeAgent is internal/edgeagent/controller/agent.go. Commands has handleCommand and its handlers:
-- the calls of the auditor and the client that a command leads to, given what the collaborators
-- answer and the readings of the clock. Reconnect has Run as the list of its delays, given how each
-- session of the stream ended; a list that ends is a context that ends. Durations are numbers, and
-- backoff *= 2 wraps at 2^64, which the theorems' bound of 2^62 nanoseconds keeps away from.
--
-- Pipeline is the loop of executeAskQuestionPipeline in
-- internal/controlplane/controller/query_pipeline.go, over the guard: what the model generates and what
-- the agent answers are parameters. It recurs on the attempts that are left, which start at the
-- source's maxAttempts of 2; the texts sent to the agent are a second result. Around it stand Question
-- (the types), Preparation (internal/controlplane/controller/query_prepare.go and the checks of query.go),
-- Ask (AskQuestion, with what follows the attempts) and Runs (the rows of tenant_query_runs,
-- internal/controlplane/repository/query_memory.go). Executed is on what the agent gets, Reading, Recorded
-- and Asked on the runs.
--
-- Onboarding (internal/controlplane/controller/onboarding.go, internal/controlplane/model/onboarding.go):
-- the steps that take a tenant from its first page to its first question. Onboarding.Types has the data,
-- Onboarding.Texts the slugs, the docker command, the setup SQL and the addresses, Onboarding.Messages
-- the error texts of locale_messages.go. A method is a state-and-error action on one tenant's row, name,
-- tokens and invites (Onboarding.Store); the row that was written stays written when a later call fails.
-- Onboarding.Handlers has what the methods share (loadWorkspace, loadRecord, refreshAgentConnection,
-- buildStateView), Onboarding.Steps the methods and Onboarding.Requests one type for all requests. What
-- other components answer is an argument (Env), as are the faults of the database, by the number of the
-- call. Onboarding.Progress has the invariant, Advances, Rules, Parts
-- and Preservation its proof; Completion, Journey and Connecting follow an owner from step to step.
--
-- Semantic (internal/controlplane/controller/semantic_layer.go, internal/controlplane/repository/
-- semantic_layer.go): the descriptions of a schema. Semantic.Content has the pure part: the check of a
-- content, hydrateSemanticLayerFromSchema, which puts the model's descriptions on the schema's tables, and
-- mergeEditableDescriptions, which puts the user's on a stored layer. Semantic.Layers has the statements of
-- the repository on a list of rows, each transaction as one step, and Semantic.Methods the controller's
-- methods, with the model's answer and the faults of the database as arguments (Env). Descriptions, Outcomes
-- and Updated are on an edit, Changes on the rows under an approval or a new draft.
--
-- Tokens (internal/controlplane/controller/tenant.go, internal/controlplane/repository/tenant_token.go,
-- internal/controlplane/auth): the tokens by which agents are known. Tokens.Store has the rows and the
-- statements on them, Tokens.Issue the issue and the revocation, Tokens.Bearer the reading of the header and
-- RequireAgentToken, as the response or the agent that the next handler gets. SHA-256 is an argument.
-- Authority and Access are on who gets through, Lifecycle on a token from its issue to its revocation.
--
-- Grants is ValidateGrants of internal/edgeagent/gateway/mysql/mysql.go, with Go's Index, Split, Fields and
-- Join over code points; a slice out of range is an outcome. Parse and Fields are on the parts of a grant.
--
-- Starters (internal/controlplane/controller/starter_questions.go, starter_questions_validator.go beside it,
-- internal/controlplane/repository/starter_questions.go): the file itself has the candidates and the
-- validator (validateStarterQuestions, its messages as data), Rows the statements on the table, Methods the
-- attempts of generate (two, counted down from 2), List and Regenerate. The model's answers, the approved
-- layer and the faults of the database are arguments (Env); the requests made to the model are recorded.
-- Keys, Tables and Valid are on the validator, Attempts on the loop, Written, Sets, Stored, Persisted and Regenerated on
-- the rows.
--
-- Not modelled: generated code (gen); the HTTP handlers, and the repositories but those of semantic
-- layers, tokens, starter questions and query runs, which move values between the database, the protocol
-- buffers and the controllers; configuration and start-up; the web client; the words of the prompts; the
-- review of questions; schema introspection; and of the gateway to MySQL all but the check of grants.
mod Prelude
pub mod SqlGuard
pub mod Llm
pub mod Sessions
pub mod EdgeAgent
pub mod Pipeline
pub mod Onboarding
pub mod Semantic
pub mod Tokens
pub mod Grants
pub mod Starters
