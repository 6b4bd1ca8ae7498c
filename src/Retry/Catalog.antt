-- ===== src/Retry/Catalog.antt =====
-- The failure catalog of app/retry/classifier.py, one list for each stage, in the source's order.
use stream_lite.Base.{Bool, true, false, Option, none, some, List, [], ◌∷◌, ◌++◌}
use stream_lite.Base.Text.{Text, text}
use stream_lite.Jobs.{JobState}
use stream_lite.Store.Model.{Stage, FailureClass}

pub record CatalogEntry : Type 0 where
  pub failure_class : FailureClass
  pub retryable : Bool
  pub terminal_state : Option JobState
  pub operator_message : Text

-- An entry with its key.
pub record Keyed : Type 0 where
  pub stage : Stage
  pub error_code : Text
  pub entry : CatalogEntry

unfoldable pub event_catalog : List Keyed
event_catalog =
    record {
      stage = Stage.event;
      error_code = text "BROKER_UNAVAILABLE";
      entry = record {
        failure_class = FailureClass.retryable;
        retryable = true;
        terminal_state = none;
        operator_message =
            text "Broker is unavailable and event publication or consumption will retry.";
      };
    }
    ∷ record {
      stage = Stage.event;
      error_code = text "BROKER_PUBLISH_FAILURE";
      entry = record {
        failure_class = FailureClass.retryable;
        retryable = true;
        terminal_state = none;
        operator_message = text "Broker publish failed and event publication will retry.";
      };
    }
    ∷ record {
      stage = Stage.event;
      error_code = text "PATH_POLICY_VIOLATION";
      entry = record {
        failure_class = FailureClass.non_retryable;
        retryable = false;
        terminal_state = some JobState.failed;
        operator_message =
            text
              "Event handling failed a path policy check and it will not be retried automatically.";
      };
    }
    ∷ []

unfoldable pub validation_catalog : List Keyed
validation_catalog =
    record {
      stage = Stage.validation;
      error_code = text "FILE_EMPTY";
      entry = record {
        failure_class = FailureClass.non_retryable;
        retryable = false;
        terminal_state = some JobState.quarantined;
        operator_message =
            text
              "Validation rejected an empty source file and it will not be retried automatically.";
      };
    }
    ∷ record {
      stage = Stage.validation;
      error_code = text "FILE_NOT_FOUND";
      entry = record {
        failure_class = FailureClass.non_retryable;
        retryable = false;
        terminal_state = some JobState.quarantined;
        operator_message =
            text
              "Validation could not locate the source file and it will not be retried automatically.";
      };
    }
    ∷ record {
      stage = Stage.validation;
      error_code = text "FILE_NOT_READABLE";
      entry = record {
        failure_class = FailureClass.non_retryable;
        retryable = false;
        terminal_state = some JobState.quarantined;
        operator_message =
            text
              "Validation could not read the source file and it will not be retried automatically.";
      };
    }
    ∷ record {
      stage = Stage.validation;
      error_code = text "FILE_TOO_LARGE";
      entry = record {
        failure_class = FailureClass.non_retryable;
        retryable = false;
        terminal_state = some JobState.quarantined;
        operator_message =
            text
              "Validation rejected the source file size and it will not be retried automatically.";
      };
    }
    ∷ record {
      stage = Stage.validation;
      error_code = text "EXTENSION_NOT_ALLOWED";
      entry = record {
        failure_class = FailureClass.non_retryable;
        retryable = false;
        terminal_state = some JobState.quarantined;
        operator_message =
            text
              "Validation rejected the source file extension and it will not be retried automatically.";
      };
    }
    ∷ record {
      stage = Stage.validation;
      error_code = text "SCHEMA_INVALID";
      entry = record {
        failure_class = FailureClass.non_retryable;
        retryable = false;
        terminal_state = some JobState.quarantined;
        operator_message =
            text
              "Validation rejected the source file schema and it will not be retried automatically.";
      };
    }
    ∷ record {
      stage = Stage.validation;
      error_code = text "PATH_POLICY_VIOLATION";
      entry = record {
        failure_class = FailureClass.non_retryable;
        retryable = false;
        terminal_state = some JobState.quarantined;
        operator_message =
            text "Validation rejected the source path and it will not be retried automatically.";
      };
    }
    ∷ record {
      stage = Stage.validation;
      error_code = text "PATH_SECURITY_FAILURE";
      entry = record {
        failure_class = FailureClass.non_retryable;
        retryable = false;
        terminal_state = some JobState.quarantined;
        operator_message =
            text
              "Validation failed a path security check and it will not be retried automatically.";
      };
    }
    ∷ record {
      stage = Stage.validation;
      error_code = text "VALIDATION_POLICY_FAILURE";
      entry = record {
        failure_class = FailureClass.non_retryable;
        retryable = false;
        terminal_state = some JobState.quarantined;
        operator_message =
            text "Validation policy failed and it will not be retried automatically.";
      };
    }
    ∷ []

unfoldable pub processing_catalog : List Keyed
processing_catalog =
    record {
      stage = Stage.processing;
      error_code = text "PROCESSOR_TIMEOUT";
      entry = record {
        failure_class = FailureClass.retryable;
        retryable = true;
        terminal_state = none;
        operator_message = text "Processing timed out and a retry can be scheduled.";
      };
    }
    ∷ record {
      stage = Stage.processing;
      error_code = text "PROCESSOR_TRANSIENT_ERROR";
      entry = record {
        failure_class = FailureClass.retryable;
        retryable = true;
        terminal_state = none;
        operator_message = text "Processing hit a transient error and a retry can be scheduled.";
      };
    }
    ∷ record {
      stage = Stage.processing;
      error_code = text "PROCESSING_TRANSIENT_FAILURE";
      entry = record {
        failure_class = FailureClass.retryable;
        retryable = true;
        terminal_state = none;
        operator_message = text "Processing hit a transient failure and a retry can be scheduled.";
      };
    }
    ∷ record {
      stage = Stage.processing;
      error_code = text "PROCESSING_INPUT_UNAVAILABLE";
      entry = record {
        failure_class = FailureClass.retryable;
        retryable = true;
        terminal_state = none;
        operator_message =
            text "Processing input is temporarily unavailable and a retry can be scheduled.";
      };
    }
    ∷ record {
      stage = Stage.processing;
      error_code = text "PROCESSING_OUTPUT_UNAVAILABLE";
      entry = record {
        failure_class = FailureClass.retryable;
        retryable = true;
        terminal_state = none;
        operator_message =
            text
              "Processing output staging is temporarily unavailable and a retry can be scheduled.";
      };
    }
    ∷ record {
      stage = Stage.processing;
      error_code = text "PROCESSING_UNEXPECTED_ERROR";
      entry = record {
        failure_class = FailureClass.retryable;
        retryable = true;
        terminal_state = none;
        operator_message = text "Processing failed unexpectedly and a retry can be scheduled.";
      };
    }
    ∷ record {
      stage = Stage.processing;
      error_code = text "PROCESSING_ARTIFACT_INVALID";
      entry = record {
        failure_class = FailureClass.non_retryable;
        retryable = false;
        terminal_state = some JobState.failed;
        operator_message =
            text
              "Processing produced an invalid artifact contract and it will not be retried automatically.";
      };
    }
    ∷ record {
      stage = Stage.processing;
      error_code = text "PROCESSING_INPUT_INVALID";
      entry = record {
        failure_class = FailureClass.non_retryable;
        retryable = false;
        terminal_state = some JobState.failed;
        operator_message =
            text "Processing rejected invalid input and it will not be retried automatically.";
      };
    }
    ∷ record {
      stage = Stage.processing;
      error_code = text "PROCESSING_SOURCE_SHA256_MISSING";
      entry = record {
        failure_class = FailureClass.non_retryable;
        retryable = false;
        terminal_state = some JobState.failed;
        operator_message =
            text "Processing metadata is incomplete and it will not be retried automatically.";
      };
    }
    ∷ record {
      stage = Stage.processing;
      error_code = text "UNSUPPORTED_EXTENSION_REACHED_PROCESSING";
      entry = record {
        failure_class = FailureClass.non_retryable;
        retryable = false;
        terminal_state = some JobState.failed;
        operator_message =
            text
              "Processing reached an unsupported extension and it will not be retried automatically.";
      };
    }
    ∷ []

unfoldable pub delivery_catalog : List Keyed
delivery_catalog =
    record {
      stage = Stage.delivery;
      error_code = text "DESTINATION_TEMPORARILY_UNAVAILABLE";
      entry = record {
        failure_class = FailureClass.retryable;
        retryable = true;
        terminal_state = none;
        operator_message =
            text "Delivery destination is temporarily unavailable and a retry can be scheduled.";
      };
    }
    ∷ record {
      stage = Stage.delivery;
      error_code = text "DESTINATION_UNAVAILABLE";
      entry = record {
        failure_class = FailureClass.retryable;
        retryable = true;
        terminal_state = none;
        operator_message = text "Delivery destination is unavailable and a retry can be scheduled.";
      };
    }
    ∷ record {
      stage = Stage.delivery;
      error_code = text "DELIVERY_TRANSIENT_FAILURE";
      entry = record {
        failure_class = FailureClass.retryable;
        retryable = true;
        terminal_state = none;
        operator_message = text "Delivery hit a transient failure and a retry can be scheduled.";
      };
    }
    ∷ record {
      stage = Stage.delivery;
      error_code = text "DESTINATION_NOT_FOUND";
      entry = record {
        failure_class = FailureClass.retryable;
        retryable = true;
        terminal_state = none;
        operator_message = text "Delivery destination is unavailable and a retry can be scheduled.";
      };
    }
    ∷ record {
      stage = Stage.delivery;
      error_code = text "DESTINATION_NOT_WRITABLE";
      entry = record {
        failure_class = FailureClass.retryable;
        retryable = true;
        terminal_state = none;
        operator_message =
            text "Delivery destination is not writable and a retry can be scheduled.";
      };
    }
    ∷ record {
      stage = Stage.delivery;
      error_code = text "FINALIZE_FAILED";
      entry = record {
        failure_class = FailureClass.retryable;
        retryable = true;
        terminal_state = none;
        operator_message = text "Delivery finalize failed and a retry can be scheduled.";
      };
    }
    ∷ record {
      stage = Stage.delivery;
      error_code = text "SOURCE_TRANSFER_FAILED";
      entry = record {
        failure_class = FailureClass.retryable;
        retryable = true;
        terminal_state = none;
        operator_message =
            text "Delivery could not read the staged output and a retry can be scheduled.";
      };
    }
    ∷ record {
      stage = Stage.delivery;
      error_code = text "DESTINATION_NOT_ALLOWLISTED";
      entry = record {
        failure_class = FailureClass.non_retryable;
        retryable = false;
        terminal_state = some JobState.failed;
        operator_message =
            text
              "Delivery destination failed the allowlist policy and it will not be retried automatically.";
      };
    }
    ∷ record {
      stage = Stage.delivery;
      error_code = text "FINALIZE_UNSUPPORTED";
      entry = record {
        failure_class = FailureClass.non_retryable;
        retryable = false;
        terminal_state = some JobState.failed;
        operator_message =
            text
              "Delivery finalize is unsupported for the current destination and it will not be retried automatically.";
      };
    }
    ∷ record {
      stage = Stage.delivery;
      error_code = text "PATH_POLICY_VIOLATION";
      entry = record {
        failure_class = FailureClass.non_retryable;
        retryable = false;
        terminal_state = some JobState.failed;
        operator_message =
            text "Delivery failed a path policy check and it will not be retried automatically.";
      };
    }
    ∷ record {
      stage = Stage.delivery;
      error_code = text "PATH_SECURITY_FAILURE";
      entry = record {
        failure_class = FailureClass.non_retryable;
        retryable = false;
        terminal_state = some JobState.failed;
        operator_message =
            text "Delivery failed a path security check and it will not be retried automatically.";
      };
    }
    ∷ []

unfoldable pub routing_catalog : List Keyed
routing_catalog =
    record {
      stage = Stage.routing;
      error_code = text "NO_MATCHING_DESTINATION";
      entry = record {
        failure_class = FailureClass.non_retryable;
        retryable = false;
        terminal_state = some JobState.failed;
        operator_message =
            text "Routing found no matching destination and it will not be retried automatically.";
      };
    }
    ∷ record {
      stage = Stage.routing;
      error_code = text "PATH_POLICY_VIOLATION";
      entry = record {
        failure_class = FailureClass.non_retryable;
        retryable = false;
        terminal_state = some JobState.failed;
        operator_message =
            text "Routing failed a path policy check and it will not be retried automatically.";
      };
    }
    ∷ record {
      stage = Stage.routing;
      error_code = text "PATH_SECURITY_FAILURE";
      entry = record {
        failure_class = FailureClass.non_retryable;
        retryable = false;
        terminal_state = some JobState.failed;
        operator_message =
            text "Routing failed a path security check and it will not be retried automatically.";
      };
    }
    ∷ []

unfoldable pub catalog : List Keyed
catalog =
    event_catalog ++ validation_catalog ++ processing_catalog ++ delivery_catalog ++ routing_catalog
