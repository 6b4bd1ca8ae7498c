-- ===== src/System.antt =====
-- The services of the application together, over one database: each runs a method in a session of
-- its own, which is committed or rolled back.
pub mod Tests
use stream_lite.Base.{ℕ, leb, ◌≡◌, refl, true, Option, none, some}
use stream_lite.Base.Text.{Text, Casing}
use stream_lite.Base.Uuids.{Uuids}
use stream_lite.Base.Table.{get}
use stream_lite.Base.Exec.{Exec}
use stream_lite.Base.Exec.Leads.{Leads}
use stream_lite.Store.Model.{Job, Db}
use stream_lite.Store.Audit.{Audited}
use stream_lite.Store.Stable.{Stable, core-records, Stable-Off, Audited-Stable}
use stream_lite.Store.Lives.{Lived, Lives, Lives-refl, Lives-Stable, Both, Both-Stable}
use stream_lite.Watcher.Registration.{register_job, detected-Audited}
use stream_lite.Watcher.Registration.Keeps.{register_job-keeps, detected-Lives}
use stream_lite.Events.Dispatcher.{Answer, publish_due_events}
use stream_lite.Events.Dispatcher.Apart.{publish_due_events-Off}
use stream_lite.Retry.Backoff.{Policy}
use stream_lite.Retry.Scheduler.Schedule.{schedule_retry_for_job}
use stream_lite.Retry.Scheduler.Schedule.Keeps.{schedule_retry_for_job-Leads}
use stream_lite.Retry.Scheduler.Due.{process_due_retries}
use stream_lite.Retry.Scheduler.Due.Keeps.{process_due_retries-Leads}
use stream_lite.Retry.Manual.Accept.{Request, accept_manual_retry_command}
use stream_lite.Retry.Manual.Keeps.{accept_manual_retry_command-Leads}
use stream_lite.Processing.{Adapter}
use stream_lite.Processing.Batch.{claim_and_process}
use stream_lite.Processing.Batch.Keeps.{claim_and_process-Leads}
use stream_lite.Delivery.{Files}
use stream_lite.Delivery.Run.{claim_and_deliver}
use stream_lite.Delivery.Keeps.Run.{claim_and_deliver-Leads}

-- What the services are given.
pub record Setting : Type 0 where
  pub casing : Casing
  pub uuids : Uuids
  pub policy : Policy
  pub payload_hash : Text → Option Text → Text
  pub adapter : Adapter
  pub files : Files
  pub retry_max_attempts : ℕ

module _ (s : Setting) where
  -- A service runs; the session it leaves, also one that an exception ends, is committed. A new
  -- UUID is not the id of a job. The readings of the clock and the answers of the broker are any.
  pub data Step : Db → Db → Type 0 where
    registers :
        (db : Db) (row : Job) (correlation at : ℕ)
        → get db.next_uuid db.jobs ≡ none
        → Step db (register_job row correlation at db).1
    processes :
        (db : Db) (clock : ℕ → stream_lite.Processing.Readings) (correlation : Option ℕ) (limit : ℕ)
        → Step db (claim_and_process s.adapter s.retry_max_attempts correlation clock limit db).1
    delivers :
        (db : Db) (clock : ℕ → stream_lite.Delivery.Readings) (correlation : Option ℕ) (limit : ℕ)
        → Step db
            (claim_and_deliver s.casing s.files s.retry_max_attempts correlation clock limit db).1
    schedules :
        (db : Db) (job_id : ℕ) (stage code : Text) (correlation : Option ℕ) (instant : ℕ)
        → Step db
            (schedule_retry_for_job s.casing s.policy job_id stage code correlation instant db).1
    releases :
        (db : Db) (limit : ℕ) (correlation : Option ℕ) (as_of : ℕ) (clock : ℕ → ℕ)
        → Step db (process_due_retries limit correlation as_of clock db).1
    retries :
        (db : Db) (request : Request) (instant : ℕ)
        → Step db
            (accept_manual_retry_command s.casing s.uuids s.payload_hash s.policy request instant
              db).1
    publishes :
        (db : Db) (broker : ℕ → Answer) (limit : ℕ) (as_of : Option ℕ)
        → Step db (publish_due_events broker limit as_of db).1
    -- A session that is rolled back, and time that passes.
    rolls_back : (db : Db) → Step db db
    waits : (db : Db) (now : ℕ) → leb db.now now ≡ true → Step db (record db { now = now })

  pub data Run : Db → Db → Type 0 where
    idle : {db : Db} → Run db db
    and_then : {db db' : Db} (between : Db) → Run db between → Step between db' → Run db db'

  -- What holds of a session and of every job of an earlier one.
  abbrev pub Kept : Db → Db → Type 0
  Kept old = Both Audited (Lives old)

  stable : (old : Db) → Stable (Kept old)
  stable old = Both-Stable Audited-Stable (Lives-Stable old)

  Step-Kept : (old db db' : Db) → Step db db' → Kept old db → Kept old db'
  Step-Kept old db _ (registers _ row correlation at fresh) h =
      register_job-keeps row correlation at db (stable old) (record {
        left = detected-Audited row correlation at db h.left fresh;
        right = detected-Lives row correlation at db old fresh h.right;
      })
  Step-Kept old db _ (processes _ clock correlation limit) h =
      (claim_and_process-Leads (stable old) s.adapter s.retry_max_attempts clock correlation
          limit).at
        db h
  Step-Kept old db _ (delivers _ clock correlation limit) h =
      (claim_and_deliver-Leads (stable old) s.casing s.files s.retry_max_attempts clock correlation
          limit).at
        db h
  Step-Kept old db _ (schedules _ job_id stage code correlation instant) h =
      (schedule_retry_for_job-Leads (stable old) s.casing s.policy job_id stage code correlation
          instant).at
        db h
  Step-Kept old db _ (releases _ limit correlation as_of clock) h =
      (process_due_retries-Leads (stable old) limit correlation as_of clock).at db h
  Step-Kept old db _ (retries _ request instant) h =
      (accept_manual_retry_command-Leads (stable old) s.casing s.uuids s.payload_hash s.policy
          request instant).at
        db h
  Step-Kept old db _ (publishes _ broker limit as_of) h =
      (Stable-Off (stable old) _ (core-records _ (publish_due_events-Off broker limit as_of))).at db
        h
  Step-Kept old db _ (rolls_back _) h = h
  Step-Kept old db _ (waits _ now later) h = (stable old).off db _ refl refl h

  -- Whatever the services do from an audited session, in whatever order and however each of their
  -- runs ends, the session that they get to is audited, and a job that was there before is there
  -- still, in a state to which moves lead that the table of transitions accepts. The id that is
  -- drawn for a new job is one that no job has.
  pub Run-refines :
      (db db' : Db) (i : ℕ) (job : Job)
      → Run db db'
      → Audited db
      → get i db.jobs ≡ some job
      → Audited db' × Lived job.state (get i db'.jobs)
  Run-refines db db' i job run audited found =
      let h = kept db' run in (h.left, h.right.at i job found)
    where
      kept : (after : Db) → Run db after → Kept db after
      kept _ idle = record { left = audited; right = Lives-refl db }
      kept _ (and_then between before step) = Step-Kept db between _ step (kept between before)
