-- ===== src/Llm/Breaker/Outcome.antt =====
-- How `afterCall` tells the results of a call apart.
use mission.Prelude.{Option, none, some, if◌then◌else◌}
use mission.Llm.Errors.{Err, is_canceled, is_transient_provider_error}

pub data Outcome : Type 0 where
  success cancellation transient_failure permanent_failure : Outcome

unfoldable pub outcome : Option Err → Outcome
outcome none = success
outcome (some e) =
    if is_canceled e
    then cancellation
    else if is_transient_provider_error (some e)
    then transient_failure
    else permanent_failure
