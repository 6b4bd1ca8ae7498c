-- ===== src/Events/Dispatcher.antt =====
-- app/events/dispatcher.py: the due rows of the outbox are published, retried with a growing delay,
-- and dead-lettered at the third failure. The broker is a parameter: its answer for each row.
pub mod Pass
pub mod Sound
pub mod Apart
use stream_lite.Base.{ℕ, ◌+◌, ◌*◌, Option, none, some, List, [], ◌∷◌, leb, if◌then◌else◌}
use stream_lite.Base.Text.{Text}
use stream_lite.Base.Table.{get}
use stream_lite.Base.Exec.{◌>>=◌, ◌>>◌, err, not_found, err, Exec, pure}
use stream_lite.Store.Model.{OutboxRow, Db}
use stream_lite.Store.Jobs.{or_old}
use stream_lite.Store.Outbox.{
  list_pending_events, mark_dispatched, mark_publish_failed, mark_dead_letter,
}

abbrev pub max_publish_attempts : ℕ
max_publish_attempts = 3

-- How `publish_json` ends: with the id in the stream, or with an exception, whose error code is
-- "BROKER_UNAVAILABLE" if it carries none.
pub data Answer : Type 0 where
  accepted : Text → Answer
  broken : Text → Answer

abbrev pub second : ℕ
second = 1000000

-- The payload for the dead-letter stream goes to the broker too; its outcome is only logged.
unfoldable pub dead_letter_record : ℕ → Text → Exec Db OutboxRow
dead_letter_record id failure_code = mark_dead_letter id failure_code none

unfoldable pub mark_publish_failure : ℕ × OutboxRow → Text → ℕ → Exec Db OutboxRow
unfolding dead_letter_record
mark_publish_failure (id, row) error_code failed_at =
    let next_attempt = row.publish_attempts + 1 in
    if leb max_publish_attempts next_attempt
    then dead_letter_record id error_code
    else mark_publish_failed id error_code (failed_at + next_attempt * second)

-- _publish_record
unfoldable pub publish_record : Answer → ℕ × OutboxRow → ℕ → Exec Db OutboxRow
unfolding mark_publish_failure
publish_record (accepted stream_id) (id, row) as_of = mark_dispatched id stream_id (some as_of)
publish_record (broken error_code) record' as_of = mark_publish_failure record' error_code as_of

abbrev publish_found : Answer → ℕ → Option OutboxRow → Exec Db OutboxRow
publish_found answer id none db = (err not_found, db)
publish_found answer id (some row) db = publish_record answer (id, row) db.now db

-- publish_one, its record read from the session.
unfoldable pub publish_one : Answer → ℕ → Exec Db OutboxRow
publish_one answer id db = publish_found answer id (get id db.outbox) db

-- The comprehension over the claimed records.
unfoldable pub publish_all : (ℕ → Answer) → List (ℕ × OutboxRow) → ℕ → Exec Db (List OutboxRow)
publish_all broker [] as_of = pure []
publish_all broker ((id, row) ∷ records) as_of = do
  published ← publish_record (broker id) (id, row) as_of
  rest ← publish_all broker records as_of
  pure (published ∷ rest)

unfoldable pub publish_due_events : (ℕ → Answer) → ℕ → Option ℕ → Exec Db (List OutboxRow)
unfolding publish_all
publish_due_events broker limit as_of db =
    let dispatch_time = or_old as_of db.now in
    (do
      records ← list_pending_events (some dispatch_time) limit
      publish_all broker records dispatch_time)
      db
