-- ===== src/Store/Outbox.antt =====
-- app/repositories/events.py: the rows of event_outbox.
use stream_lite.Base.{
  ℕ, ◌+◌, Bool, true, false, ◌&&◌, ◌||◌, Option, none, some, List, ◌==◌, ltb, leb, keep, take,
  sort_by,
}
use stream_lite.Base.Text.{Text}
use stream_lite.Base.Table.{get, put}
use stream_lite.Base.Exec.{ok, err, Exec, not_found, ◌>>=◌}
use stream_lite.Store.Model.{OutboxRow, OutboxStatus, Db, generate_uuid}
use stream_lite.Store.Jobs.{or_old}

-- enqueue_event, the row filled in by the caller but for the counter.
unfoldable pub insert_event : OutboxRow → Exec Db ℕ
unfolding generate_uuid
insert_event row = do
  outbox_id ← generate_uuid
  λ db. (
    ok outbox_id,
    record db { outbox = put outbox_id (record row { publish_attempts = 0 }) db.outbox },
  )

-- status IN ('pending', 'publish_failed')
abbrev pub is_open : OutboxStatus → Bool
is_open OutboxStatus.pending = true
is_open OutboxStatus.publish_failed = true
is_open _ = false

-- next_publish_at IS NULL OR next_publish_at <= boundary
abbrev pub is_ripe : ℕ → Option ℕ → Bool
is_ripe boundary none = true
is_ripe boundary (some at) = leb at boundary

abbrev pub is_pending : ℕ → ℕ × OutboxRow → Bool
is_pending boundary (id, row) = is_open row.status && is_ripe boundary row.next_publish_at

-- ORDER BY occurred_at, outbox_id
abbrev pub earlier : ℕ × OutboxRow → ℕ × OutboxRow → Bool
earlier (i, a) (j, b) =
    ltb a.occurred_at b.occurred_at || (a.occurred_at == b.occurred_at && ltb i j)

unfoldable pub list_pending_events : Option ℕ → ℕ → Exec Db (List (ℕ × OutboxRow))
list_pending_events as_of limit db =
    let boundary = or_old as_of db.now in
    (ok (take limit (sort_by earlier (keep (is_pending boundary) db.outbox))), db)

abbrev pub write_row : ℕ → (ℕ → OutboxRow → OutboxRow) → Option OutboxRow → Exec Db OutboxRow
write_row id write none db = (err not_found, db)
write_row id write (some row) db =
    (ok (write db.now row), record db { outbox = put id (write db.now row) db.outbox })

abbrev pub dispatched : Text → Option ℕ → ℕ → OutboxRow → OutboxRow
dispatched stream_id published_at now row = record row {
  status = OutboxStatus.published;
  published_stream_id = some stream_id;
  published_at = some (or_old published_at now);
  next_publish_at = none;
  last_error_code = none;
  updated_at = now;
}

unfoldable pub mark_dispatched : ℕ → Text → Option ℕ → Exec Db OutboxRow
mark_dispatched id stream_id published_at db =
    write_row id (dispatched stream_id published_at) (get id db.outbox) db

abbrev pub failed_once_more : OutboxStatus → Text → Option ℕ → ℕ → OutboxRow → OutboxRow
failed_once_more status error_code next_publish_at now row = record row {
  status = status;
  last_error_code = some error_code;
  next_publish_at = next_publish_at;
  publish_attempts = row.publish_attempts + 1;
  updated_at = now;
}

unfoldable pub mark_publish_failed : ℕ → Text → ℕ → Exec Db OutboxRow
mark_publish_failed id error_code next_publish_at db =
    write_row id (failed_once_more OutboxStatus.publish_failed error_code (some next_publish_at))
      (get id db.outbox) db

unfoldable pub mark_dead_letter : ℕ → Text → Option ℕ → Exec Db OutboxRow
mark_dead_letter id error_code next_publish_at db =
    write_row id (failed_once_more OutboxStatus.dead_lettered error_code next_publish_at)
      (get id db.outbox) db
