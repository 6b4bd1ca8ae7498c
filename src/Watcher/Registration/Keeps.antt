-- ===== src/Watcher/Registration/Keeps.antt =====
-- What registering a file keeps (poll_once of app/watcher/service.py), from the moment on that the row
-- of the job is there.
use stream_lite.Base.{ℕ, ◌≡◌, refl, sym, ap, ◌∙◌, none, some, ◌==◌, ==_iff, Bool-cases, inl, inr}
use stream_lite.Base.Table.{get, get-put}
use stream_lite.Jobs.{JobState, transition_allowed}
use stream_lite.Store.Model.{Job, Db}
use stream_lite.Store.Stable.{Stable, Standing, move_on-Leads}
use stream_lite.Base.Exec.Leads.{Leads-bind, Leads-pure}
use stream_lite.Store.Lives.{Lived, Lives}
use stream_lite.Watcher.Registration.{register_job, first, settle, enter, detected_db, found_first}

module _ (row : Job) (correlation at : ℕ) (db : Db) where
  pub register_job-keeps :
      {P : Db → Type 0}
      → Stable P
      → P (detected_db row correlation at db)
      → P (register_job row correlation at db).1
  unfolding register_job transition_allowed
  register_job-keeps {P} stable h =
      (Leads-bind {R = Standing P db.next_uuid JobState.stabilizing} kept _ _
          (move_on-Leads stable db.next_uuid JobState.detected none none
            (settle row correlation at db) refl refl refl)
          (λ _.
            Leads-bind {R = Standing P db.next_uuid JobState.registered} kept _ _
              (move_on-Leads stable db.next_uuid JobState.stabilizing none none
                (enter row correlation at db) refl refl refl)
              (λ _. Leads-pure kept _))).at
        (detected_db row correlation at db)
        (record {
          kept = h;
          job = first row correlation at db;
          found = found_first row correlation at db;
          stands = refl;
        })
    where
      kept : {s : JobState} (x : Db) → Standing P db.next_uuid s x → P x
      kept x r = r.kept

  pub detected-Lives :
      (old : Db)
      → get db.next_uuid db.jobs ≡ none
      → Lives old db
      → Lives old (detected_db row correlation at db)
  detected-Lives old fresh h = record { at = at' }
    where
      at' :
          (i : ℕ) (job : Job)
          → get i old.jobs ≡ some job
          → Lived job.state (get i (detected_db row correlation at db).jobs)
      at' i job k = elim (Bool-cases (db.next_uuid == i)) [
        | inl mine ↦ taken ((==_iff db.next_uuid i).0 mine) (h.at i job k)
        | inr other ↦ rw (get-put, other) (h.at i job k)
      ]
        where
          taken :
              db.next_uuid ≡ i
              → Lived job.state (get i db.jobs)
              → Lived job.state (get i (detected_db row correlation at db).jobs)
          taken same lived = absent (sym fresh ∙ ap (λ n. get n db.jobs) same ∙ lived.found)
            where
              absent :
                  none ≡ some lived.job
                  → Lived job.state (get i (detected_db row correlation at db).jobs)
              absent e = cc
