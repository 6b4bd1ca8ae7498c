-- ===== src/Retry/Manual/HandBack.antt =====
-- The block under `try` of accept_manual_retry_command (app/retry/manual.py) cannot fail once the
-- checks have passed.
use stream_lite.Base.{
  ℕ, suc, ◌≤◌, ◌≡◌, refl, true, false, not, none, some, [], ◌∷◌, take, length-take, arith,
}
use stream_lite.Base.Text.{Text, is_empty}
use stream_lite.Base.Table.{get, put}
use stream_lite.Base.Uuids.{Uuids}
use stream_lite.Base.Exec.{ok}
use stream_lite.Jobs.{JobState, transition_allowed}
use stream_lite.Store.Rows.{Command, CommandStatus}
use stream_lite.Store.Model.{Stage, Job, Db, generate_uuid}
use stream_lite.Store.Jobs.{Transition, moved, move-accepted, history_row}
use stream_lite.Store.Retry.{schedule_retry}
use stream_lite.Store.Commands.{update_command_status, with_status}
use stream_lite.Events.{event_row, enqueue_event-accepted, validate_payload, is_retry_stage}
use stream_lite.Events.Schema.{has_length}
use stream_lite.Retry.Backoff.{Policy}
use stream_lite.Retry.Scheduler.{by_scheduler}
use stream_lite.Retry.Manual.{reason_manual_retry_requested}
use stream_lite.Retry.Manual.Failed.{is_failed_stage}
use stream_lite.Retry.Manual.Locator.{command_result_locator}
use stream_lite.Retry.Manual.Plan.{Plan}
use stream_lite.Retry.Manual.Accept.{hand_back, manual_schedule, manual_event}

pub failed_retries :
    (s : JobState) → s ≡ JobState.failed → transition_allowed s JobState.retry_pending ≡ true
unfolding transition_allowed
failed_retries s h = rw h refl

retried_stage : (s : Stage) → is_failed_stage s ≡ true → is_retry_stage s ≡ true
retried_stage s h = ground arith

cut_reason : (s : Text) → is_empty s ≡ false → has_length 1 256 (take 256 s) ≡ true
cut_reason [] h = cc
cut_reason (c ∷ s) h = ground (arith, length-take 255 s)

-- The row of the job behind the block.
abbrev pub pending_job : Plan → ℕ → Job
pending_job p now =
    moved JobState.retry_pending p.failed_context.error_code (some p.next_attempt_number) now p.job

module _ (u : Uuids) (policy : Policy) (job_id : ℕ) (p : Plan) (reason : Text)
    (instant command_id : ℕ) where
  abbrev pub handing : Transition
  handing =
      by_scheduler JobState.failed JobState.retry_pending reason_manual_retry_requested
        p.correlation_id instant

  abbrev pub succeeded_command : ℕ → ℕ → Command → Command
  succeeded_command schedule_id now command =
      with_status CommandStatus.succeeded
        (some (command_result_locator u schedule_id (not p.classification.retryable))) none none now
        command

  -- The session behind the block, for the command that was written before it.
  abbrev pub handed_back : Command → Db → Db
  handed_back command db = record db {
    jobs = put job_id (pending_job p db.now) db.jobs;
    history = history_row (suc db.next_uuid) job_id handing db.history ∷ db.history;
    schedules = put db.next_uuid (manual_schedule policy job_id p instant db.now) db.schedules;
    outbox =
        put (suc (suc (suc db.next_uuid)))
          (record (event_row (manual_event policy job_id p reason instant) (suc (suc db.next_uuid))
            db.now) { publish_attempts = 0 })
          db.outbox;
    commands = put command_id (succeeded_command db.next_uuid db.now command) db.commands;
    next_uuid = suc (suc (suc (suc db.next_uuid)));
  }

  pub event_valid :
      is_failed_stage p.failed_context.stage ≡ true
      → 1 ≤ policy.max_attempts
      → is_empty reason ≡ false
      → validate_payload (manual_event policy job_id p reason instant).payload ≡ true
  unfolding validate_payload
  event_valid stage some_attempt given =
      rw (retried_stage p.failed_context.stage stage, cut_reason reason given) (ground arith)

  pub hand_back_lem :
      (db : Db) (command : Command)
      → get job_id db.jobs ≡ some p.job
      → p.job.state ≡ JobState.failed
      → validate_payload (manual_event policy job_id p reason instant).payload ≡ true
      → get command_id db.commands ≡ some command
      → hand_back u policy job_id p reason instant command_id db
        ≡ (ok db.next_uuid, handed_back command db)
  unfolding hand_back schedule_retry generate_uuid
  hand_back_lem db command found state valid held =
      let db₁ : Db = record db {
        schedules = put db.next_uuid (manual_schedule policy job_id p instant db.now) db.schedules;
        next_uuid = suc db.next_uuid;
      } in
      rw
        (
          move-accepted job_id p.failed_context.error_code (some p.next_attempt_number) db₁ found
              handing (failed_retries p.job.state state),
          enqueue_event-accepted (manual_event policy job_id p reason instant) _ valid,
        )
        (unfold update_command_status in rw held refl)
