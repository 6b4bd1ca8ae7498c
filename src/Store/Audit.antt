-- ===== src/Store/Audit.antt =====
-- What the history of app/repositories/jobs.py records of a job: the rows of one job, read from the
-- oldest on, retrace its states one accepted move at a time.
use stream_lite.Base.{
  ℕ, zero, suc, ◌≡◌, refl, Bool, true, false, ◌&&◌, Option, none, some, List, [], ◌∷◌, arith, ◌==◌,
  if◌then◌else◌, ==_refl, Bool-cases, ==_iff, inl, inr,
}
use stream_lite.Base.Table.{get, put, get-put, get-put_self}
use stream_lite.Base.Text.{Text}
use stream_lite.Jobs.{JobState, state_eq, transition_allowed, state_eq_refl}
use stream_lite.Store.Model.{Job, HistoryRow, Db}
use stream_lite.Store.Jobs.{
  max_sequence, after, greater, Transition, move, moved, move-accepted, after_move, history_row,
}

abbrev same_state : Option JobState → Option JobState → Bool
same_state none none = true
same_state (some a) (some b) = state_eq a b
same_state _ _ = false

-- The first row may name any state; a later one is an accepted move.
abbrev pub legal : Option JobState → JobState → Bool
legal none new_state = true
legal (some previous_state) new_state = transition_allowed previous_state new_state

-- One row after a run that ended in `state` with `n` rows.
abbrev replay_row : HistoryRow → Option (Option JobState × ℕ) → Option (Option JobState × ℕ)
replay_row row none = none
replay_row row (some (state, n)) =
    if same_state row.previous_state state
      && (legal row.previous_state row.new_state && row.transition_sequence == suc n)
    then some (some row.new_state, suc n)
    else none

-- The state and the number of rows to which the history of a job leads; `none` where it breaks.
unfoldable pub replay : ℕ → List HistoryRow → Option (Option JobState × ℕ)
replay job_id [] = some (none, 0)
replay job_id (row ∷ rows) =
    let rest = replay job_id rows in if row.job_id == job_id then replay_row row rest else rest

abbrev numbered : ℕ → Option ℕ
numbered zero = none
numbered (suc n) = some (suc n)

greater-numbered : (m : ℕ) → greater (suc m) (numbered m) ≡ some (suc m)
greater-numbered zero = refl
greater-numbered (suc m) = ground arith

-- What a run that does not break says of its last row.
replay_row_inv :
    (row : HistoryRow) (rest : Option (Option JobState × ℕ)) (s : Option JobState) (n : ℕ)
    → replay_row row rest ≡ some (s, n)
    → (s₀ : Option JobState) × (m : ℕ) × (rest ≡ some (s₀, m))
      × (row.transition_sequence ≡ suc m)
      × (n ≡ suc m)
replay_row_inv row none s n e = cc
replay_row_inv row (some (s₀, m)) s n e = (s₀, m, refl, ground arith, ground arith)

max_sequence-replay :
    (j : ℕ) (h : List HistoryRow) (s : Option JobState) (n : ℕ)
    → replay j h ≡ some (s, n)
    → max_sequence j h ≡ numbered n
unfolding replay max_sequence
max_sequence-replay j [] s n e = ground arith
max_sequence-replay j (row ∷ h) s n e = elim (Bool-cases (row.job_id == j)) [
  | inl mine ↦
      rw mine (own (max_sequence-replay j h) (replay_row_inv row (replay j h) s n (rw mine at e)))
  | inr other ↦ rw other (max_sequence-replay j h s n (rw other at e))
]
  where
    own :
        ((s : Option JobState) (n : ℕ) → replay j h ≡ some (s, n) → max_sequence j h ≡ numbered n)
        → (s₀ : Option JobState) × (m : ℕ) × (replay j h ≡ some (s₀, m))
          × (row.transition_sequence ≡ suc m)
          × (n ≡ suc m)
        → greater row.transition_sequence (max_sequence j h) ≡ numbered n
    own ih (s₀, m, q, a, b) = rw (ih s₀ m q, a, b) (greater-numbered m)

abbrev pub state_of : Option Job → Option JobState
state_of none = none
state_of (some job) = some job.state

-- The history of every job, numbered from 1 without a gap, leads to the state that its row holds;
-- a job that does not exist has none.
pub record Audited (db : Db) : Type 0 where
  pub at : (j : ℕ) → (n : ℕ) × (replay j db.history ≡ some (state_of (get j db.jobs), n))

same_state_refl : (s : Option JobState) → same_state s s ≡ true
same_state_refl none = refl
same_state_refl (some a) = state_eq_refl a

after-numbered : (n : ℕ) → after (numbered n) ≡ suc n
after-numbered zero = refl
after-numbered (suc n) = omega arith

-- A row that continues the history of its job.
replay-extend :
    (j : ℕ) (h : List HistoryRow) (row : HistoryRow) (s : Option JobState) (n : ℕ)
    → replay j h ≡ some (s, n)
    → row.job_id ≡ j
    → row.previous_state ≡ s
    → legal s row.new_state ≡ true
    → row.transition_sequence ≡ after (max_sequence j h)
    → replay j (row ∷ h) ≡ some (some row.new_state, suc n)
unfolding replay
replay-extend j h row s n e same prev fine seq = rw (
  same,
  ==_refl,
  e,
  prev,
  fine,
  same_state_refl s,
  seq,
  max_sequence-replay j h s n e,
  after-numbered n,
  ==_refl,
)

module _ {db : Db} (audited : Audited db) where
  pub Audited-same : (db' : Db) → db'.jobs ≡ db.jobs → db'.history ≡ db.history → Audited db'
  Audited-same db' p q = record { at = λ j. rw (p, q) (audited.at j) }

  pub Audited-extend :
      (db' : Db) (j : ℕ) (job' : Job) (row : HistoryRow)
      → db'.jobs ≡ put j job' db.jobs
      → db'.history ≡ row ∷ db.history
      → row.job_id ≡ j
      → row.previous_state ≡ state_of (get j db.jobs)
      → legal (state_of (get j db.jobs)) row.new_state ≡ true
      → row.transition_sequence ≡ after (max_sequence j db.history)
      → row.new_state ≡ job'.state
      → Audited db'
  Audited-extend db' j job' row p q same prev fine seq new = record { at = at' }
    where
      own : (n : ℕ) × (replay j db'.history ≡ some (state_of (get j db'.jobs), n))
      own = (
        suc (audited.at j).0,
        rw (p, q, get-put_self, ← new)
            (replay-extend j db.history row (state_of (get j db.jobs)) (audited.at j).0
              (audited.at j).1 same prev fine seq),
      )

      at' : (i : ℕ) → (n : ℕ) × (replay i db'.history ≡ some (state_of (get i db'.jobs), n))
      at' i = elim (Bool-cases (j == i)) [
        | inl mine ↦ rw (← (==_iff j i).0 mine) own
        | inr other ↦
            ((audited.at i).0, unfold replay in rw (p, q, same, get-put, other) (audited.at i).1)
      ]

  -- An accepted move keeps every job audited: where the history of every job retraces the state of
  -- its row, numbered from 1 without a gap, it still does after a move that names the state of the
  -- row as the previous one, leaves the numbering to the repository and is an allowed transition.
  pub move-Audited :
      (j : ℕ) (job : Job) (e : Option Text) (a : Option ℕ) (t : Transition)
      → get j db.jobs ≡ some job
      → t.previous_state ≡ some job.state
      → t.transition_sequence ≡ none
      → transition_allowed job.state t.new_state ≡ true
      → Audited (move j e a t db).1
  move-Audited j job e a t found prev seq fine = rw (move-accepted j e a db found t fine) (
      Audited-extend (after_move j e a db found t) j (moved t.new_state e a db.now job)
        (history_row db.next_uuid j t db.history) refl refl refl (rw (found, prev)) (rw found fine)
        (rw seq) (unfold moved in refl))
