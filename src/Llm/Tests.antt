-- ===== src/Llm/Tests.antt =====
-- The gateway's theorems at concrete breakers and routers.
use mission.Prelude.{
  ◌≡◌, ◌≢◌, ◌⊎◌, refl, true, false, Option, none, some, List, [], ◌∷◌, arith, ◌==◌, text_test,
  if◌then◌else◌,
}
use mission.Prelude.Text.{Text, codes, trim_space}
use mission.Prelude.Equality.{text_beq}
use mission.Prelude.Dict.{lookup, insert}
use mission.Llm.Errors.{
  Err, canceled, circuit_open, provider, unavailable, message, wrap_error, new_unavailable_error,
  is_transient_provider_error, is_canceled,
}
use mission.Llm.Breaker.{ProviderBreaker, closed, new_provider_breaker, before_call, after_call}
use mission.Llm.Breaker.Outcome.{outcome}
use mission.Llm.Breaker.Invariant.{IsValid, Call, before, after, run, run-new-IsValid}
use mission.Llm.Breaker.Probe.{straggler_second_probe}
use mission.Llm.Breaker.Streak.{after_calls, third_failure_trips}
use mission.Llm.Request.{CompletionRequest, CompletionResponse, model_for_provider}
use mission.Llm.Router.{
  Provider, Router, Visit, response, failure, no_providers, ok, err, new_router, ordered_providers,
  complete, complete_from, round,
}
use mission.Llm.Router.Order
use mission.Llm.Router.Failover.{Settled, Exhausted, complete_lem}
use mission.Llm.Router.Answers.{complete-err}

abbrev overloaded : Err
overloaded = provider (codes "a") (message "overloaded") true

abbrev new : ProviderBreaker
new = record {
  provider = codes "a";
  state = closed;
  consecutive_fails = 0;
  open_until = 0;
  half_open_in_flight = false;
}

run-new-IsValid_example : IsValid (
    run
      (before 1 ∷ after 2 (some overloaded) ∷ after 3 none ∷ [])
      (new_provider_breaker (codes "a")))
run-new-IsValid_example =
    run-new-IsValid (codes "a") (before 1 ∷ after 2 (some overloaded) ∷ after 3 none ∷ [])

-- A call begins at 1; three others fail until 4, which opens the breaker; the probe begins after half a
-- minute.
abbrev meanwhile : List Call
meanwhile =
    after 2 (some overloaded)
    ∷ after 3 (some overloaded)
    ∷ before 3
    ∷ after 4 (some overloaded)
    ∷ []

straggler_second_probe_example :
    let opened = run meanwhile (before_call 1 new).0 in
    let probing = (before_call 30000000004 opened).0 in
    ((before_call 1 new).1 ≡ none)
    × ((before_call 30000000004 opened).1 ≡ none)
    × ((before_call 30000000006 probing).1 ≡ some (provider opened.provider circuit_open true))
    × ((before_call 30000000006 (after_call 30000000005 (some canceled) probing)).1 ≡ none)
unfolding is_canceled run before_call after_call is_transient_provider_error
straggler_second_probe_example =
    straggler_second_probe new meanwhile canceled 1 30000000004 30000000005 30000000006 refl refl
      (omega arith) refl

third_failure_trips_example :
    (after_calls ((1, some overloaded) ∷ (2, some canceled) ∷ (3, some overloaded) ∷ []) new).state
    ≡ closed
unfolding outcome is_canceled is_transient_provider_error
third_failure_trips_example =
    (third_failure_trips ((1, some overloaded) ∷ (2, some canceled) ∷ (3, some overloaded) ∷ []) 4
      (some overloaded) new refl refl (omega arith)).0

-- Two providers; the first is overloaded and the second answers.
abbrev given : List (Option Provider)
given = some (record { name = codes "a" }) ∷ none ∷ some (record { name = codes " b " }) ∷ []

abbrev answer : CompletionResponse
answer = record {
  content = "hello";
  provider = [];
  model = codes "m";
  usage = record {
    input_tokens = 1;
    output_tokens = 1;
    cache_creation_input_tokens = 0;
    cache_read_input_tokens = 0;
  };
}

abbrev request : CompletionRequest
request = record {
  system = "";
  messages = [];
  operation = [];
  model = codes "m";
  provider_models = [];
  max_tokens = 100;
}

abbrev first_overloaded : Text → Visit
first_overloaded n = record {
  before_at = 1;
  after_at = 2;
  reply = λ r. if n == codes "a" then failure overloaded else response answer;
}

abbrev router : Router
router = new_router (codes "a") given

router-IsValid : Order.IsValid router
router-IsValid = Order.new_router-IsValid (codes "a") given

failover_run :
    (ordered_providers router ≡ codes "a" ∷ codes "b" ∷ [])
    × ((complete first_overloaded request router).1 ≡ ok (record answer { provider = codes " b " }))
unfolding new_router ordered_providers complete round trim_space lookup insert text_beq
    complete_from before_call new_provider_breaker model_for_provider is_transient_provider_error
    wrap_error new_unavailable_error
failover_run = (refl, refl)

complete_lem_example :
    let names = ordered_providers router in
    let end = complete first_overloaded request router in
    ((names ≡ []) × (end ≡ (router, err no_providers)))
    ⊎ ((names ≢ []) × Settled first_overloaded request router names end.0 end.1)
    ⊎ ((names ≢ []) × Exhausted first_overloaded request router [] names none end.1)
complete_lem_example = complete_lem first_overloaded request router router-IsValid

abbrev always_overloaded : Text → Visit
always_overloaded n = record { before_at = 1; after_at = 2; reply = λ r. failure overloaded }

exhausted_run :
    (complete always_overloaded request router).1
    ≡ err (unavailable (codes "a" ∷ codes "b" ∷ []) overloaded)
unfolding new_router ordered_providers complete round trim_space lookup insert text_beq
    complete_from before_call new_provider_breaker model_for_provider is_transient_provider_error
    wrap_error new_unavailable_error
exhausted_run = refl

complete-err_example :
    (is_transient_provider_error (some (unavailable (codes "a" ∷ codes "b" ∷ []) overloaded))
      ≡ false)
    ⊎ ((last : Err) × (unavailable (codes "a" ∷ codes "b" ∷ []) overloaded
          ≡ unavailable (ordered_providers router) last))
complete-err_example =
    complete-err always_overloaded request router router-IsValid
      (unavailable (codes "a" ∷ codes "b" ∷ []) overloaded) exhausted_run
