-- ===== src/Events/Dispatcher/Apart.antt =====
-- A pass of app/events/dispatcher.py writes to the outbox only.
use stream_lite.Base.{ℕ, ◌≡◌, refl, Option, none, some, List, [], ◌∷◌, ◌+◌, leb}
use stream_lite.Base.Table.{get}
use stream_lite.Base.Text.{Text}
use stream_lite.Base.Exec.Off.{Off, Off-if, Off-pure, Off-bind}
use stream_lite.Store.Model.{OutboxRow, Db}
use stream_lite.Store.Outbox.{
  write_row, list_pending_events, mark_dispatched, mark_publish_failed, mark_dead_letter,
}
use stream_lite.Store.Core.{core}
use stream_lite.Events.Dispatcher.{
  Answer, max_publish_attempts, accepted, broken, dead_letter_record, mark_publish_failure,
  publish_record, publish_all, publish_due_events,
}

write_row-core :
    (id : ℕ) (w : ℕ → OutboxRow → OutboxRow) (o : Option OutboxRow) (db : Db)
    → core (write_row id w o db).1 ≡ core db
write_row-core id w none db = refl
write_row-core id w (some row) db = refl

mark_dispatched-Off : (id : ℕ) (s : Text) (at : Option ℕ) → Off core (mark_dispatched id s at)
unfolding mark_dispatched
mark_dispatched-Off id s at = record { at = λ db. write_row-core id _ (get id db.outbox) db }

mark_publish_failed-Off : (id : ℕ) (e : Text) (at : ℕ) → Off core (mark_publish_failed id e at)
unfolding mark_publish_failed
mark_publish_failed-Off id e at = record { at = λ db. write_row-core id _ (get id db.outbox) db }

mark_dead_letter-Off : (id : ℕ) (e : Text) (at : Option ℕ) → Off core (mark_dead_letter id e at)
unfolding mark_dead_letter
mark_dead_letter-Off id e at = record { at = λ db. write_row-core id _ (get id db.outbox) db }

publish_record-Off :
    (answer : Answer) (row : ℕ × OutboxRow) (as_of : ℕ) → Off core (publish_record answer row as_of)
unfolding publish_record mark_publish_failure dead_letter_record
publish_record-Off (accepted s) (id, row) as_of = mark_dispatched-Off id s _
publish_record-Off (broken e) (id, row) as_of =
    Off-if (leb max_publish_attempts (row.publish_attempts + 1)) _ _
      (mark_dead_letter-Off id e none) (mark_publish_failed-Off id e _)

publish_all-Off :
    (broker : ℕ → Answer) (rows : List (ℕ × OutboxRow)) (as_of : ℕ)
    → Off core (publish_all broker rows as_of)
unfolding publish_all
publish_all-Off broker [] as_of = Off-pure []
publish_all-Off broker ((id, row) ∷ rows) as_of =
    Off-bind _ _ (publish_record-Off (broker id) (id, row) as_of)
      (λ published. Off-bind _ _ (publish_all-Off broker rows as_of) (λ rest. Off-pure _))

pub publish_due_events-Off :
    (broker : ℕ → Answer) (limit : ℕ) (as_of : Option ℕ)
    → Off core (publish_due_events broker limit as_of)
unfolding publish_due_events list_pending_events
publish_due_events-Off broker limit as_of = record { at = λ db. (publish_all-Off broker _ _).at db }
