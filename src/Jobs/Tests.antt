-- ===== src/Jobs/Tests.antt =====
-- Tests of the transition table.
use stream_lite.Base.{◌≡◌, refl, true, false}
use stream_lite.Jobs.{JobState, allowed, transition_allowed}

table :
    (allowed JobState.processing JobState.retry_pending ≡ true)
    × (allowed JobState.validated JobState.delivering ≡ false)
    × (transition_allowed JobState.failed JobState.failed ≡ true)
unfolding transition_allowed
table = (refl, refl, refl)
