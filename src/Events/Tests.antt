-- ===== src/Events/Tests.antt =====
-- The theorems about the dispatcher at the sample session.
use stream_lite.Base.{[], ◌∷◌, ℕ, ◌≡◌, ◌+◌, ◌*◌, refl, none, some, arith}
use stream_lite.Base.Text.{text}
use stream_lite.Base.Table.{get}
use stream_lite.Base.Exec.{ok}
use stream_lite.Store.Model.{OutboxStatus, Stage, Service, Payload, IdempotencyKey, Db}
use stream_lite.Events.{Event}
use stream_lite.Events.Dispatcher.{Answer, broken, publish_due_events, second}
use stream_lite.Events.Dispatcher.Pass.{settled_rows, settled, claimed, publish_due_events-settles}
use stream_lite.Events.Dispatcher.Sound.{
  AllSound, publish_due_events-AllSound, publish_due_events-closed, failed_at, progress,
  dead_letter_third,
}
use stream_lite.Samples.{sample_db, sample_event}

abbrev broker : ℕ → Answer
broker id = broken (text "BROKER_UNAVAILABLE")

publish_due_events-settles_example :
    let (result, after) = publish_due_events broker 10 (some 300) sample_db in
    (result ≡ ok (settled_rows broker 300 200 (claimed 300 10 sample_db)))
    × (get 30 after.outbox
        ≡ settled (broker 30) 300 200 (get 30 (claimed 300 10 sample_db)) (get 30 sample_db.outbox))
publish_due_events-settles_example = publish_due_events-settles broker 10 300 sample_db (tt, tt) 30

sample_sound : AllSound sample_db
unfolding get
sample_sound = record { at = λ j row found. ground arith }

publish_due_events-AllSound_example : AllSound (publish_due_events broker 10 (some 300) sample_db).1
publish_due_events-AllSound_example =
    publish_due_events-AllSound broker 10 300 sample_db (tt, tt) sample_sound

abbrev published_db : Db
published_db = record sample_db {
  outbox = (30, record sample_event { status = OutboxStatus.published }) ∷ [];
}

publish_due_events-closed_example :
    get 30 (publish_due_events broker 10 (some 300) published_db).1.outbox
    ≡ some (record sample_event { status = OutboxStatus.published })
unfolding get
publish_due_events-closed_example =
    publish_due_events-closed broker 10 300 published_db (tt, tt) 30 refl refl

abbrev event : Event
event = record {
  schema_version = text "1.0.0";
  event_type = text "retry.scheduled";
  producer = Service.retry_scheduler;
  correlation_id = 4;
  job_id = 7;
  watcher_id = 2;
  attempt_number = 2;
  occurred_at = 100;
  idempotency_key = IdempotencyKey.key (text "retry.scheduled") 7 Stage.processing 2;
  payload = Payload.retry_payload Stage.processing 100 5 3 (text "again");
}

dead_letter_third_example :
    let once = failed_at (text "BROKER_UNAVAILABLE") 30 300 sample_db in
    let twice = failed_at (text "BROKER_UNAVAILABLE") 30 1000300 once in
    let thrice = failed_at (text "BROKER_UNAVAILABLE") 30 3000300 twice in
    (progress (get 30 once.outbox) ≡ some (OutboxStatus.publish_failed, 1, some (300 + second)))
    × (progress (get 30 twice.outbox)
        ≡ some (OutboxStatus.publish_failed, 2, some (1000300 + 2 * second)))
    × (progress (get 30 thrice.outbox) ≡ some (OutboxStatus.dead_lettered, 3, none))
unfolding get
dead_letter_third_example =
    dead_letter_third (text "BROKER_UNAVAILABLE") 30 sample_event sample_db 300 1000300 3000300 refl
      refl
