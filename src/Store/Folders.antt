-- ===== src/Store/Folders.antt =====
-- The folders of a watcher (app/repositories/watchers.py): their lists and their health.
use stream_lite.Base.{
  ℕ, Bool, true, false, ◌&&◌, ◌||◌, Option, none, some, List, [], ◌∷◌, ◌==◌, ltb, keep, sort_by,
}
use stream_lite.Base.Text.{Text}
use stream_lite.Base.Table.{Table, get, put}
use stream_lite.Base.Exec.{ok, err, Exec, not_found}
use stream_lite.Store.Rows.{FolderRow, Health}
use stream_lite.Store.Model.{Db}

-- The order of texts by their code points.
unfoldable pub text_lt : Text → Text → Bool
text_lt s [] = false
text_lt [] (b ∷ t) = true
text_lt (a ∷ s) (b ∷ t) = ltb a b || (a == b && text_lt s t)

-- ORDER BY created_at ASC, display_path ASC
abbrev older : ℕ × FolderRow → ℕ × FolderRow → Bool
older (i, a) (j, b) =
    ltb a.created_at b.created_at
    || (a.created_at == b.created_at && text_lt a.display_path b.display_path)

abbrev folders_of : ℕ → Table FolderRow → List (ℕ × FolderRow)
folders_of watcher_id rows = sort_by older (keep (λ r. r.1.watcher_id == watcher_id) rows)

unfoldable pub list_sources : ℕ → Exec Db (List (ℕ × FolderRow))
unfolding text_lt
list_sources watcher_id db = (ok (folders_of watcher_id db.sources), db)

unfoldable pub list_destinations : ℕ → Exec Db (List (ℕ × FolderRow))
unfolding text_lt
list_destinations watcher_id db = (ok (folders_of watcher_id db.destinations), db)

abbrev with_health : Health → Option Text → ℕ → FolderRow → FolderRow
with_health health_status reason_code now row = record row {
  health_status = health_status;
  reason_code = reason_code;
  updated_at = now;
}

abbrev pub write_source : ℕ → (ℕ → FolderRow → FolderRow) → Option FolderRow → Exec Db FolderRow
write_source id write none db = (err not_found, db)
write_source id write (some row) db =
    (ok (write db.now row), record db { sources = put id (write db.now row) db.sources })

abbrev pub write_destination :
    ℕ → (ℕ → FolderRow → FolderRow) → Option FolderRow → Exec Db FolderRow
write_destination id write none db = (err not_found, db)
write_destination id write (some row) db =
    (ok (write db.now row), record db { destinations = put id (write db.now row) db.destinations })

unfoldable pub update_source_health : ℕ → Health → Option Text → Exec Db FolderRow
update_source_health id health_status reason_code db =
    write_source id (with_health health_status reason_code) (get id db.sources) db

unfoldable pub update_destination_health : ℕ → Health → Option Text → Exec Db FolderRow
update_destination_health id health_status reason_code db =
    write_destination id (with_health health_status reason_code) (get id db.destinations) db
