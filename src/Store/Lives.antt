-- ===== src/Store/Lives.antt =====
-- The life of every job that a session holds: what may become of its state.
use stream_lite.Base.{
  ℕ, ◌≡◌, refl, sym, ap, subst, ◌∙◌, Option, some, some-injective, ◌==◌, ==_iff, Bool-cases, inl,
  inr,
}
use stream_lite.Base.Text.{Text}
use stream_lite.Base.Table.{get, put, get-put}
use stream_lite.Jobs.{JobState}
use stream_lite.Jobs.Graph.{Reach, here, Reach-after}
use stream_lite.Store.Model.{Job, Db}
use stream_lite.Store.Jobs.{Transition, move, moved, move-accepted}
use stream_lite.Store.Stable.{Accepts, Stable}

-- The job is still there, in a state that accepted moves lead to from `s`.
pub record Lived (s : JobState) (o : Option Job) : Type 0 where
  pub job : Job
  pub found : o ≡ some job
  pub path : Reach s job.state

-- Of every job of an earlier session.
pub record Lives (old db : Db) : Type 0 where
  pub at : (i : ℕ) (job : Job) → get i old.jobs ≡ some job → Lived job.state (get i db.jobs)

pub Lives-refl : (db : Db) → Lives db db
Lives-refl db = record { at = λ i job h. record { job = job; found = h; path = here } }

module _ (old : Db) where
  move-Lives :
      (db : Db) (j : ℕ) (job : Job) (e : Option Text) (a : Option ℕ) (t : Transition)
      → Accepts db j job t
      → Lives old db
      → Lives old (move j e a t db).1
  unfolding moved
  move-Lives db j job e a t h p = rw (move-accepted j e a db h.found t h.fine) (record { at = at' })
    where
      row : Job
      row = moved t.new_state e a db.now job

      met : {i : ℕ} → j ≡ i → (k : Job) → get i db.jobs ≡ some k → k ≡ job
      met {i} same k found =
          some-injective k job (sym found ∙ ap (λ n. get n db.jobs) (sym same) ∙ h.found)

      at' :
          (i : ℕ) (first : Job)
          → get i old.jobs ≡ some first
          → Lived first.state (get i (put j row db.jobs))
      at' i first k = elim (Bool-cases (j == i)) [
        | inl mine ↦ own ((==_iff j i).0 mine) (p.at i first k)
        | inr other ↦ rw (get-put, other) (p.at i first k)
      ]
        where
          own :
              j ≡ i
              → Lived first.state (get i db.jobs)
              → Lived first.state (get i (put j row db.jobs))
          own same lived = record {
            job = row;
            found = rw (get-put, (==_iff j i).1 same) refl;
            path =
                Reach-after first.state job.state t.new_state
                  (subst (λ k. Reach first.state k.state) (met same lived.job lived.found)
                    lived.path)
                  h.fine;
          }

  pub Lives-Stable : Stable (Lives old)
  Lives-Stable = record {
    off = λ db db' jobs history h. record { at = λ i job k. rw jobs (h.at i job k) };
    moves = move-Lives;
  }

pub record Both (P Q : Db → Type 0) (db : Db) : Type 0 where
  pub left : P db
  pub right : Q db

pub Both-Stable : {P Q : Db → Type 0} → Stable P → Stable Q → Stable (Both P Q)
Both-Stable p q = record {
  off = λ db db' jobs history h. record {
    left = p.off db db' jobs history h.left;
    right = q.off db db' jobs history h.right;
  };
  moves = λ db j job e a t h k. record {
    left = p.moves db j job e a t h k.left;
    right = q.moves db j job e a t h k.right;
  };
}
