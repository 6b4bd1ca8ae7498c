-- ===== src/Watcher/Stability.antt =====
-- Which files the polls of app/watcher/service.py take for stable.
use stream_lite.Base.{
  ℕ, ◌+◌, ◌≤◌, ◌<◌, ◌≡◌, refl, sym, subst, Bool, true, false, not, Option, none, some,
  some-injective, List, [], ◌∷◌, leb, if◌then◌else◌, arith, Bool-cases, inl, inr, ==_refl,
}
use stream_lite.Base.Text.{text_eq_refl}
use stream_lite.Watcher.{
  FileSnapshot, unchanged, is_file_stable, Key, same_key, Snapshots, snapshot_at, pop_snapshot,
  Observation, observe_file, ever_stable,
}

same_key_refl : (k : Key) → same_key k k ≡ true
same_key_refl (i, s) = rw (==_refl i, text_eq_refl s) refl

-- The snapshot of the file after a poll.
abbrev pub left_by : Bool → FileSnapshot → Option FileSnapshot
left_by true current = none
left_by false current = some current

-- The polls of a file each come before the window since the one before is over.
abbrev pub Frequent : ℕ → ℕ → List Observation → Type 0
Frequent stability last [] = Unit
Frequent stability last (o ∷ os) =
    (o.now < last + stability) × Frequent stability o.current.observed_at_monotonic os

-- The file has a snapshot that was taken at this time.
record SeenAt (key : Key) (time : ℕ) (t : Snapshots) : Type 0 where
  pub snapshot : FileSnapshot
  pub found : snapshot_at key t ≡ some snapshot
  pub taken : snapshot.observed_at_monotonic ≡ time

too_soon :
    (p : Option FileSnapshot) (current previous : FileSnapshot) (now stability : ℕ)
    → p ≡ some previous
    → now < previous.observed_at_monotonic + stability
    → is_file_stable p current now stability ≡ false
unfolding is_file_stable
too_soon none current previous now stability e h = cc
too_soon (some q) current previous now stability e h =
    subst
      (λ (x : FileSnapshot).
        (if not (unchanged x current) then false else leb (x.observed_at_monotonic + stability) now)
        ≡ false)
      (sym (some-injective q previous e)) (ground arith)

Frequent-ever_stable :
    (stability : ℕ) (key : Key) (last : ℕ) (os : List Observation) (t : Snapshots)
    → SeenAt key last t
    → Frequent stability last os
    → ever_stable stability key os t ≡ false
unfolding ever_stable observe_file
Frequent-ever_stable stability key last [] t seen h = refl
Frequent-ever_stable stability key last (o ∷ os) t seen h =
    rw
      (too_soon (snapshot_at key t) o.current seen.snapshot o.now stability seen.found
        (rw seen.taken h.0))
      (Frequent-ever_stable stability key o.current.observed_at_monotonic os
        ((key, o.current) ∷ pop_snapshot key t)
        (record {
          snapshot = o.current;
          found = unfold snapshot_at in rw (same_key_refl key) refl;
          taken = refl;
        })
        h.1)

-- A file that is polled more often than the stability window is never taken for stable, however
-- long it stays unchanged: each poll puts its own snapshot in the place of the older one.
pub ever_stable-Frequent :
    (stability : ℕ) (key : Key) (first : Observation) (os : List Observation) (t : Snapshots)
    → snapshot_at key t ≡ none
    → Frequent stability first.current.observed_at_monotonic os
    → ever_stable stability key (first ∷ os) t ≡ false
unfolding ever_stable observe_file is_file_stable
ever_stable-Frequent stability key first os t unseen h = rw unseen (
    Frequent-ever_stable stability key first.current.observed_at_monotonic os
      ((key, first.current) ∷ pop_snapshot key t)
      (record {
        snapshot = first.current;
        found = unfold snapshot_at in rw (same_key_refl key) refl;
        taken = refl;
      })
      h)

in_window : (a b : ℕ) → a ≤ b → leb a b ≡ true
in_window a b h = ground arith

-- Of two polls of a file, one right after the other, where the first does not take it for stable and
-- the second observes it unchanged, the stability window or more after the first, the second takes
-- it for stable.
pub observe_file-again :
    (stability : ℕ) (key : Key) (o next : Observation) (t : Snapshots)
    → (observe_file stability key o t).0 ≡ false
    → unchanged o.current next.current ≡ true
    → o.current.observed_at_monotonic + stability ≤ next.now
    → (observe_file stability key next (observe_file stability key o t).1).0 ≡ true
unfolding observe_file
observe_file-again stability key o next t first same late =
    elim (Bool-cases (is_file_stable (snapshot_at key t) o.current o.now stability)) [
      | inl stable ↦ cc (rw stable at first)
      | inr unstable ↦ rw unstable (
          unfold snapshot_at in
          rw (same_key_refl key) (
            unfold is_file_stable in
            rw same
              (rw (in_window (o.current.observed_at_monotonic + stability) next.now late) refl)))
    ]
