-- ===== src/Watcher.antt =====
-- app/watcher/stability.py and the snapshots of app/watcher/service.py: when a polled file is taken
-- for stable. The readings of the monotonic clock are numbers of one unit, which the stability
-- window is counted in too.
pub mod Stability
pub mod Registration
mod Tests
use stream_lite.Base.{
  ℕ, ◌+◌, Bool, true, false, ◌&&◌, not, Option, none, some, List, [], ◌∷◌, ◌==◌, leb, if◌then◌else◌,
}
use stream_lite.Base.Text.{Text, text_eq}

pub record FileSnapshot : Type 0 where
  pub path : Text
  pub size_bytes : ℕ
  pub modified_ns : ℕ
  pub observed_at_monotonic : ℕ

abbrev pub unchanged : FileSnapshot → FileSnapshot → Bool
unchanged previous current =
    text_eq previous.path current.path
    && (previous.size_bytes == current.size_bytes && previous.modified_ns == current.modified_ns)

unfoldable pub is_file_stable : Option FileSnapshot → FileSnapshot → ℕ → ℕ → Bool
is_file_stable none current now stability_seconds = false
is_file_stable (some previous) current now stability_seconds =
    if not (unchanged previous current)
    then false
    else leb (previous.observed_at_monotonic + stability_seconds) now

-- The key of a snapshot: the source folder's id and the locator of the file.
abbrev pub Key : Type 0
Key = ℕ × Text

abbrev pub same_key : Key → Key → Bool
same_key (i, s) (j, t) = i == j && text_eq s t

-- self._snapshots, a dict
abbrev pub Snapshots : Type 0
Snapshots = List (Key × FileSnapshot)

unfoldable pub snapshot_at : Key → Snapshots → Option FileSnapshot
snapshot_at key [] = none
snapshot_at key ((k, s) ∷ rest) = if same_key k key then some s else snapshot_at key rest

unfoldable pub pop_snapshot : Key → Snapshots → Snapshots
pop_snapshot key [] = []
pop_snapshot key ((k, s) ∷ rest) =
    let rest' = pop_snapshot key rest in if same_key k key then rest' else (k, s) ∷ rest'

-- A file found by a poll: its snapshot, and the reading of the clock that it is compared at.
pub record Observation : Type 0 where
  pub current : FileSnapshot
  pub now : ℕ

-- The part of the loop body of poll_once that keeps the snapshots: whether the file goes on to the
-- duplicate check and registration, and the snapshots left. The source drops the snapshot of a stable
-- file at the end of either of these, the model at once: an exception in them is not modelled.
unfoldable pub observe_file : ℕ → Key → Observation → Snapshots → Bool × Snapshots
unfolding pop_snapshot
observe_file stability_seconds key o snapshots =
    if is_file_stable (snapshot_at key snapshots) o.current o.now stability_seconds
    then (true, pop_snapshot key snapshots)
    else (false, (key, o.current) ∷ pop_snapshot key snapshots)

-- Whether one of several polls, one after the other, takes the file for stable.
unfoldable pub ever_stable : ℕ → Key → List Observation → Snapshots → Bool
ever_stable stability_seconds key [] snapshots = false
ever_stable stability_seconds key (o ∷ os) snapshots =
    let (stable, left) = observe_file stability_seconds key o snapshots in
    if stable then true else ever_stable stability_seconds key os left
