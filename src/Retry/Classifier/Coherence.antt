-- ===== src/Retry/Classifier/Coherence.antt =====
-- What every decision of app/retry/classifier.py agrees on, entry by entry of the catalog.
use stream_lite.Base.{
  ap, Option-cases, inl, inr, Bool, true, false, ◌&&◌, Option, none, some, List, [], ◌∷◌, ◌≡◌, refl,
  ◌==◌, leb, length, if◌then◌else◌, arith,
}
use stream_lite.Base.Text.{Text, text, Casing}
use stream_lite.Base.Exec.{Result, ok, err}
use stream_lite.Jobs.{JobState, state_eq, state_eq→eq}
use stream_lite.Store.Model.{Stage, FailureClass}
use stream_lite.Store.Claims.{stage_rank}
use stream_lite.Retry.Catalog.{
  CatalogEntry, Keyed, catalog, event_catalog, validation_catalog, processing_catalog,
  delivery_catalog, routing_catalog,
}
use stream_lite.Retry.Classifier.{
  Classification, terminal_for, classify, normalize_stage, normalize_error_code, catalog_get,
  entry_for, default_non_retryable_entry, both, classified,
}

-- The stages whose failures may be retried.
abbrev pub may_retry : Stage → Bool
may_retry Stage.validation = false
may_retry Stage.routing = false
may_retry _ = true

abbrev pub class_is_retryable : FailureClass → Bool
class_is_retryable FailureClass.retryable = true
class_is_retryable _ = false

abbrev pub class_is_final : FailureClass → Bool
class_is_final FailureClass.non_retryable = true
class_is_final _ = false

abbrev ends_in : Stage → Option JobState → Bool
ends_in stage none = false
ends_in stage (some state) = state_eq state (terminal_for stage)

abbrev no_end : Option JobState → Bool
no_end none = true
no_end (some state) = false

abbrev pub fits_event : Text → Bool
fits_event message = leb 1 (length message) && leb (length message) 256

unfoldable pub is_coherent : Stage → CatalogEntry → Bool
is_coherent stage e =
    (if e.retryable
      then class_is_retryable e.failure_class && (no_end e.terminal_state && may_retry stage)
      else class_is_final e.failure_class && ends_in stage e.terminal_state)
    && fits_event e.operator_message

abbrev all_coherent : List Keyed → Bool
all_coherent [] = true
all_coherent (row ∷ rows) = is_coherent row.stage row.entry && all_coherent rows

catalog_coherent : all_coherent catalog ≡ true
unfolding is_coherent catalog event_catalog validation_catalog processing_catalog delivery_catalog
    routing_catalog text state_eq
catalog_coherent = refl

stage_rank-eq : (a b : Stage) → (stage_rank a == stage_rank b) ≡ true → a ≡ b
stage_rank-eq a b h = ground arith

catalog_get-coherent :
    (stage : Stage) (code : Text) (rows : List Keyed) (e : CatalogEntry)
    → all_coherent rows ≡ true
    → catalog_get stage code rows ≡ some e
    → is_coherent stage e ≡ true
unfolding catalog_get
catalog_get-coherent stage code [] e h found = cc
catalog_get-coherent stage code (row ∷ rows) e h found =
    ground (arith, stage_rank-eq row.stage stage, catalog_get-coherent stage code rows e)

default-coherent : (stage : Stage) → is_coherent stage (default_non_retryable_entry stage) ≡ true
unfolding is_coherent default_non_retryable_entry text state_eq
default-coherent Stage.validation = refl
default-coherent _ = refl

pub entry_for-coherent :
    (stage : Stage) (code : Text) → is_coherent stage (entry_for stage code) ≡ true
unfolding entry_for
entry_for-coherent stage code = elim (Option-cases (catalog_get stage code catalog)) [
  | inl missing ↦ rw missing (default-coherent stage)
  | inr (e, found) ↦ rw found (catalog_get-coherent stage code catalog e catalog_coherent found)
]

ends :
    (stage : Stage) (o : Option JobState) → ends_in stage o ≡ true → o ≡ some (terminal_for stage)
ends stage none h = cc
ends stage (some state) h = ap some (state_eq→eq state (terminal_for stage) h)

-- What a coherent entry says, of its parts.
coherent_parts :
    (stage : Stage) (e : CatalogEntry)
    → is_coherent stage e ≡ true
    → (e.retryable ≡ true
        → (e.failure_class ≡ FailureClass.retryable)
          × (e.terminal_state ≡ none)
          × (may_retry stage ≡ true))
      × (e.retryable ≡ false
          → (e.failure_class ≡ FailureClass.non_retryable)
            × (e.terminal_state ≡ some (terminal_for stage)))
      × (fits_event e.operator_message ≡ true)
unfolding is_coherent
coherent_parts stage e h = ground (arith, ends stage e.terminal_state)

ok-injective : (a b : Classification) → ◌≡◌ {A = Result Classification} (ok a) (ok b) → a ≡ b
ok-injective a b e = cc

both_inv :
    (message : Option Text) (rs : Result Stage) (rc : Result Text) (c : Classification)
    → both message rs rc ≡ ok c
    → (s : Stage) × (code : Text) × (rs ≡ ok s) × (rc ≡ ok code) × (classified message s code ≡ c)
both_inv message (ok s) (ok code) c h =
    (s, code, refl, refl, ok-injective (classified message s code) c h)
both_inv message (ok s) (err e) c h = cc
both_inv message (err e) rc c h = cc

-- The normalised stage and code of a decision, and the decision as the entry for them.
pub classify_inv :
    (k : Casing) (stage code : Text) (message : Option Text) (c : Classification)
    → classify k stage code message ≡ ok c
    → (s : Stage) × (code' : Text) × (normalize_stage k stage ≡ ok s)
      × (normalize_error_code k code ≡ ok code')
      × (classified message s code' ≡ c)
unfolding classify
classify_inv k stage code message c h =
    both_inv message (normalize_stage k stage) (normalize_error_code k code) c h

-- A decision that a failure is retryable names no terminal state, and is made only for the stages
-- of processing, delivery and events; any other decision names the terminal state of its stage,
-- QUARANTINED for validation and FAILED for the rest.
pub classify-coherent :
    (k : Casing) (stage code : Text) (message : Option Text) {c : Classification}
    → classify k stage code message ≡ ok c
    → (c.retryable ≡ true
        → (c.failure_class ≡ FailureClass.retryable)
          × (c.terminal_state_when_not_retryable ≡ none)
          × (may_retry c.stage ≡ true))
      × (c.retryable ≡ false
          → (c.failure_class ≡ FailureClass.non_retryable)
            × (c.terminal_state_when_not_retryable ≡ some (terminal_for c.stage)))
classify-coherent k stage code message {c} h =
    let (s, code', named, coded, made) = classify_inv k stage code message c h in
    let (again, never, fits) = coherent_parts s (entry_for s code') (entry_for-coherent s code') in
    rw (← made) (again, never)
