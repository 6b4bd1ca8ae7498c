-- ===== src/Retry/Scheduler/Tells.antt =====
-- _enqueue_retry_scheduled and _enqueue_job_failed of app/retry/scheduler.py write to the outbox
-- only, so they keep what is said of the other tables.
use stream_lite.Base.{ℕ, ◌≡◌, refl, inl, inr, Bool-cases}
use stream_lite.Base.Exec.Leads.{Leads, Leads-if, Leads-pure, Leads-bind}
use stream_lite.Store.Model.{Job, Stage, Payload, Db}
use stream_lite.Events.{
  Event, enqueue_event, enqueue_event-accepted, enqueue_event-refused, validate_payload,
  supports_job_failed_stage,
}
use stream_lite.Retry.Scheduler.{enqueue_retry_scheduled, enqueue_job_failed}

-- A predicate on the jobs, the history and the schedules.
abbrev pub OffOutbox : (Db → Type 0) → Type 0
OffOutbox P =
    (db db' : Db)
    → db'.jobs ≡ db.jobs
    → db'.history ≡ db.history
    → db'.schedules ≡ db.schedules
    → P db
    → P db'

module _ (P : Db → Type 0) (off : OffOutbox P) where
  pub enqueue_event-Leads : (e : Event) → Leads P P (enqueue_event e)
  enqueue_event-Leads e = record { at = at' }
    where
      at' : (db : Db) → P db → P (enqueue_event e db).1
      at' db h = elim (Bool-cases (validate_payload e.payload)) [
        | inl valid ↦ rw (enqueue_event-accepted e db valid) (off db _ refl refl refl h)
        | inr bad ↦ rw (enqueue_event-refused e db bad) (off db _ refl refl refl h)
      ]

  same : (db : Db) → P db → P db
  same db h = h

  module _ (j : ℕ) (job : Job) (stage : Stage) (attempt correlation instant : ℕ) (p : Payload) where
    pub enqueue_job_failed-Leads :
        Leads P P (enqueue_job_failed j job stage attempt correlation instant p)
    unfolding enqueue_job_failed
    enqueue_job_failed-Leads =
        Leads-if (supports_job_failed_stage stage) _ _
          (λ _. Leads-bind same _ _ (enqueue_event-Leads _) (λ _. Leads-pure same tt))
          (λ _. Leads-pure same tt)

    pub enqueue_retry_scheduled-Leads :
        Leads P P (enqueue_retry_scheduled j job stage attempt correlation instant p)
    unfolding enqueue_retry_scheduled
    enqueue_retry_scheduled-Leads = enqueue_event-Leads _
