-- ===== src/Retry/Classifier.antt =====
-- app/retry/classifier.py: a stage and an error code are normalised and looked up in the catalog.
pub mod Coherence
use stream_lite.Base.{Bool, false, ◌&&◌, Option, none, some, List, [], ◌∷◌, ◌==◌, if◌then◌else◌}
use stream_lite.Base.Text.{Text, text, text_eq, is_empty, strip, lower, upper, Casing}
use stream_lite.Base.Exec.{Result, ok, err, bad_argument}
use stream_lite.Jobs.{JobState}
use stream_lite.Store.Model.{Stage, FailureClass}
use stream_lite.Store.Claims.{stage_rank}
use stream_lite.Retry.Catalog.{CatalogEntry, Keyed, catalog}

pub record Classification : Type 0 where
  pub stage : Stage
  pub error_code : Text
  pub failure_class : FailureClass
  pub retryable : Bool
  pub terminal_state_when_not_retryable : Option JobState
  pub operator_message : Text

abbrev stage_named : Text → Result Stage
stage_named s =
    if text_eq s (text "validation")
    then ok Stage.validation
    else if text_eq s (text "processing")
    then ok Stage.processing
    else if text_eq s (text "delivery")
    then ok Stage.delivery
    else if text_eq s (text "routing")
    then ok Stage.routing
    else if text_eq s (text "event")
    then ok Stage.event
    else if text_eq s (text "broker")
    then ok Stage.event
    else err bad_argument

unfoldable pub normalize_stage : Casing → Text → Result Stage
normalize_stage k stage = stage_named (lower k (strip stage))

unfoldable pub normalize_error_code : Casing → Text → Result Text
normalize_error_code k error_code =
    let normalized = upper k (strip error_code) in
    if is_empty normalized then err bad_argument else ok normalized

-- _CATALOG.get((stage, error_code))
unfoldable pub catalog_get : Stage → Text → List Keyed → Option CatalogEntry
catalog_get stage error_code [] = none
catalog_get stage error_code (row ∷ rows) =
    if stage_rank row.stage == stage_rank stage && text_eq row.error_code error_code
    then some row.entry
    else catalog_get stage error_code rows

abbrev default_message : Stage → Text
default_message Stage.validation =
    text "Validation failed and it will not be retried automatically."
default_message Stage.processing =
    text "Processing failed and it will not be retried automatically."
default_message Stage.delivery = text "Delivery failed and it will not be retried automatically."
default_message Stage.routing = text "Routing failed and it will not be retried automatically."
default_message Stage.event =
    text "Event publication or consumption failed and it will not be retried automatically."

-- "QUARANTINED" if stage == "validation" else "FAILED"
abbrev pub terminal_for : Stage → JobState
terminal_for Stage.validation = JobState.quarantined
terminal_for _ = JobState.failed

unfoldable pub default_non_retryable_entry : Stage → CatalogEntry
default_non_retryable_entry stage = record {
  failure_class = FailureClass.non_retryable;
  retryable = false;
  terminal_state = some (terminal_for stage);
  operator_message = default_message stage;
}

abbrev pub entry_or : Stage → Option CatalogEntry → CatalogEntry
entry_or stage none = default_non_retryable_entry stage
entry_or stage (some entry) = entry

unfoldable pub entry_for : Stage → Text → CatalogEntry
entry_for stage error_code = entry_or stage (catalog_get stage error_code catalog)

abbrev pub resolved_message : Option Text → Text → Text
resolved_message none message = message
resolved_message (some given) message = if is_empty (strip given) then message else strip given

abbrev pub classified : Option Text → Stage → Text → Classification
classified operator_message stage error_code =
    let entry = entry_for stage error_code in
    record {
      stage = stage;
      error_code = error_code;
      failure_class = entry.failure_class;
      retryable = entry.retryable;
      terminal_state_when_not_retryable = entry.terminal_state;
      operator_message = resolved_message operator_message entry.operator_message;
    }

abbrev pub both : Option Text → Result Stage → Result Text → Result Classification
both operator_message (ok stage) (ok error_code) = ok (classified operator_message stage error_code)
both operator_message (ok stage) (err e) = err e
both operator_message (err e) _ = err e

unfoldable pub classify : Casing → Text → Text → Option Text → Result Classification
classify k stage error_code operator_message =
    both operator_message (normalize_stage k stage) (normalize_error_code k error_code)
