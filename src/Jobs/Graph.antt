-- ===== src/Jobs/Graph.antt =====
-- Paths in the transition table of app/repositories/jobs.py.
use stream_lite.Base.{◌≡◌, true, Bool-cases, inl, inr, subst}
use stream_lite.Jobs.{JobState, allowed, state_eq, transition_allowed, state_eq→eq}

-- A path of accepted moves from one state to another.
pub data Reach : JobState → JobState → Type 0 where
  here : {s : JobState} → Reach s s
  step : {s u : JobState} (t : JobState) → allowed s t ≡ true → Reach t u → Reach s u

one_more : (s t u : JobState) → Reach s t → allowed t u ≡ true → Reach s u
one_more s t u here h = step u h here
one_more s t u (step v k path) h = step v k (one_more v t u path h)

-- A path with one more move, or with the state written again.
pub Reach-after : (s t u : JobState) → Reach s t → transition_allowed t u ≡ true → Reach s u
unfolding transition_allowed
Reach-after s t u path h = elim (Bool-cases (state_eq t u)) [
  | inl same ↦ subst (Reach s) (state_eq→eq t u same) path
  | inr other ↦ one_more s t u path (rw other at h)
]
