-- ===== src/Delivery/Outcome.antt =====
-- _final_state_from_outcomes of app/delivery/service.py.
use stream_lite.Base.{
  ℕ, Bool, true, not, ◌&&◌, Option, none, some, List, [], ◌∷◌, ltb, keep, if◌then◌else◌,
}
use stream_lite.Base.Text.{Text, text}
use stream_lite.Base.Exec.{Result, ok, err, unexpected}
use stream_lite.Jobs.{JobState}
use stream_lite.Store.Rows.{DestinationOutcome, ManifestStatus}
use stream_lite.Delivery.{reason_delivery_completed}

-- The final state of the job, the status of the manifest and the reason.
pub record Final : Type 0 where
  pub state : JobState
  pub status : ManifestStatus
  pub reason_code : Text

unfoldable pub delivered_outcomes : List DestinationOutcome → List DestinationOutcome
delivered_outcomes outcomes = keep (λ o. o.is_delivered) outcomes

unfoldable pub failed_outcomes : List DestinationOutcome → List DestinationOutcome
failed_outcomes outcomes = keep (λ o. not o.is_delivered) outcomes

-- failed_outcomes[0].get("reason_code") or "DELIVERY_FAILED"
abbrev reason_or_default : Option Text → Text
reason_or_default none = text "DELIVERY_FAILED"
reason_or_default (some []) = text "DELIVERY_FAILED"
reason_or_default (some (c ∷ s)) = c ∷ s

abbrev pub reason_of : DestinationOutcome → Text
reason_of o = reason_or_default o.reason_code

abbrev pub all_retryable : List DestinationOutcome → Bool
all_retryable [] = true
all_retryable (o ∷ rest) = o.retryable && all_retryable rest

-- By the outcomes that were delivered and those that failed. Where there is none at all, the
-- index of the first failure raises IndexError.
abbrev pub final_of : ℕ → ℕ → List DestinationOutcome → List DestinationOutcome → Result Final
final_of max attempt_number (d ∷ delivered) [] = ok (record {
  state = JobState.completed;
  status = ManifestStatus.delivered;
  reason_code = reason_delivery_completed;
})
final_of max attempt_number (d ∷ delivered) (f ∷ failed) = ok (record {
  state = JobState.completed_with_delivery_errors;
  status = ManifestStatus.completed_with_delivery_errors;
  reason_code = reason_of f;
})
final_of max attempt_number [] (f ∷ failed) = ok (record {
  state =
      if all_retryable (f ∷ failed) && ltb attempt_number max
      then JobState.retry_pending
      else JobState.failed;
  status = ManifestStatus.failed;
  reason_code = reason_of f;
})
final_of max attempt_number [] [] = err unexpected

unfoldable pub final_state_from_outcomes : ℕ → ℕ → List DestinationOutcome → Result Final
unfolding delivered_outcomes failed_outcomes
final_state_from_outcomes retry_max_attempts attempt_number outcomes =
    final_of retry_max_attempts attempt_number (delivered_outcomes outcomes)
      (failed_outcomes outcomes)
