-- ===== src/Jobs.antt =====
-- The states of a job and the transitions that the job repository accepts
-- (app/db/models.py, ALLOWED_JOB_TRANSITIONS of app/repositories/jobs.py).
pub mod Graph
mod Tests
use stream_lite.Base.{ℕ, ◌≡◌, refl, Bool, true, false, ◌||◌, arith, ◌==◌, ==_iff}

pub data JobState : Type 0 where
  detected stabilizing registered validating validated invalid quarantined processing : JobState
  processed delivering delivered retry_pending failed completed : JobState
  completed_with_delivery_errors : JobState

abbrev rank : JobState → ℕ
rank JobState.detected = 0
rank JobState.stabilizing = 1
rank JobState.registered = 2
rank JobState.validating = 3
rank JobState.validated = 4
rank JobState.invalid = 5
rank JobState.quarantined = 6
rank JobState.processing = 7
rank JobState.processed = 8
rank JobState.delivering = 9
rank JobState.delivered = 10
rank JobState.retry_pending = 11
rank JobState.failed = 12
rank JobState.completed = 13
rank JobState.completed_with_delivery_errors = 14

-- new_state == job.state
unfoldable pub state_eq : JobState → JobState → Bool
state_eq a b = rank a == rank b

-- new_state in ALLOWED_JOB_TRANSITIONS.get(previous_state, set())
unfoldable pub allowed : JobState → JobState → Bool
allowed JobState.detected JobState.stabilizing = true
allowed JobState.detected JobState.failed = true
allowed JobState.stabilizing JobState.registered = true
allowed JobState.stabilizing JobState.failed = true
allowed JobState.registered JobState.validating = true
allowed JobState.registered JobState.failed = true
allowed JobState.validating JobState.validated = true
allowed JobState.validating JobState.invalid = true
allowed JobState.validating JobState.failed = true
allowed JobState.validated JobState.processing = true
allowed JobState.validated JobState.failed = true
allowed JobState.processing JobState.processed = true
allowed JobState.processing JobState.retry_pending = true
allowed JobState.processing JobState.failed = true
allowed JobState.processed JobState.delivering = true
allowed JobState.processed JobState.failed = true
allowed JobState.delivering JobState.delivered = true
allowed JobState.delivering JobState.completed_with_delivery_errors = true
allowed JobState.delivering JobState.retry_pending = true
allowed JobState.delivering JobState.failed = true
allowed JobState.delivered JobState.completed = true
allowed JobState.invalid JobState.quarantined = true
allowed JobState.retry_pending JobState.validating = true
allowed JobState.retry_pending JobState.processing = true
allowed JobState.retry_pending JobState.delivering = true
allowed JobState.retry_pending JobState.failed = true
allowed JobState.failed JobState.retry_pending = true
allowed _ _ = false

-- new_state in TERMINAL_JOB_STATES
unfoldable pub is_terminal : JobState → Bool
is_terminal JobState.completed = true
is_terminal JobState.completed_with_delivery_errors = true
is_terminal JobState.failed = true
is_terminal JobState.quarantined = true
is_terminal _ = false

-- A state may be written again; any other move is an entry of the table.
unfoldable pub transition_allowed : JobState → JobState → Bool
unfolding state_eq allowed
transition_allowed previous_state new_state =
    state_eq previous_state new_state || allowed previous_state new_state

pub state_eq_refl : (a : JobState) → state_eq a a ≡ true
unfolding state_eq
state_eq_refl a = (==_iff (rank a) (rank a)).1 refl

pub state_eq→eq : (a b : JobState) → state_eq a b ≡ true → a ≡ b
unfolding state_eq
state_eq→eq a b h = ground arith
