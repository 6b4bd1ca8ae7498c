-- ===== src/Store/Commands.antt =====
-- app/repositories/commands.py: the commands of the operators and their idempotency keys.
use stream_lite.Base.{ℕ, Bool, true, false, ◌&&◌, Option, none, some, [], ◌∷◌, if◌then◌else◌}
use stream_lite.Base.Text.{Text, text_eq}
use stream_lite.Base.Table.{Table, get, put}
use stream_lite.Base.Exec.{ok, err, Exec, not_found, integrity}
use stream_lite.Store.Rows.{Command, CommandStatus, KeyRow}
use stream_lite.Store.Model.{Db}

-- create_command under the given id, its row filled in by the caller.
unfoldable pub create_command : ℕ → Command → Exec Db Command
create_command command_id row db = (ok row, record db { commands = put command_id row db.commands })

unfoldable pub get_command : ℕ → Exec Db (Option Command)
get_command command_id db = (ok (get command_id db.commands), db)

-- status in {"succeeded", "failed", "expired"}
abbrev pub is_over : CommandStatus → Bool
is_over CommandStatus.accepted = false
is_over CommandStatus.running = false
is_over _ = true

-- completed_at or self._now(), where the command is over or a time is given
abbrev pub completion : CommandStatus → Option ℕ → ℕ → Option ℕ → Option ℕ
completion status (some at) now old = some at
completion status none now old = if is_over status then some now else old

abbrev pub with_status :
    CommandStatus → Option Text → Option Text → Option ℕ → ℕ → Command → Command
with_status status result_locator error_code completed_at now row = record row {
  status = status;
  result_locator = result_locator;
  error_code = error_code;
  completed_at = completion status completed_at now row.completed_at;
  updated_at = now;
}

abbrev pub write_command : ℕ → (ℕ → Command → Command) → Option Command → Exec Db Command
write_command id write none db = (err not_found, db)
write_command id write (some row) db =
    (ok (write db.now row), record db { commands = put id (write db.now row) db.commands })

unfoldable pub update_command_status :
    ℕ → CommandStatus → Option Text → Option Text → Option ℕ → Exec Db Command
update_command_status command_id status result_locator error_code completed_at db =
    write_command command_id (with_status status result_locator error_code completed_at)
      (get command_id db.commands) db

-- SELECT ... WHERE scope and idempotency_key
unfoldable pub find_key : Text → Text → Table KeyRow → Option KeyRow
find_key scope idempotency_key [] = none
find_key scope idempotency_key ((id, row) ∷ rows) =
    if text_eq row.scope scope && text_eq row.idempotency_key idempotency_key
    then some row
    else find_key scope idempotency_key rows

unfoldable pub get_key : Text → Text → Exec Db (Option KeyRow)
get_key scope idempotency_key db = (ok (find_key scope idempotency_key db.idempotency_keys), db)

abbrev pub add_key : ℕ → KeyRow → Option KeyRow → Exec Db (Unit {0})
add_key id row (some taken) db = (err integrity, db)
add_key id row none db = (ok tt, record db { idempotency_keys = put id row db.idempotency_keys })

-- record_key and reserve_idempotency_key, under the given id. Scope and key are unique together.
unfoldable pub reserve_idempotency_key : ℕ → KeyRow → Exec Db (Unit {0})
unfolding find_key
reserve_idempotency_key id row db =
    add_key id row (find_key row.scope row.idempotency_key db.idempotency_keys) db
