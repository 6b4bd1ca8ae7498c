-- ===== src/Events/Dispatcher/Sound.antt =====
-- The states of an outbox row (app/repositories/events.py) across the passes of
-- app/events/dispatcher.py.
use stream_lite.Base.{
  ap, ◌∙◌, Option, ◌*◌, ℕ, ◌+◌, ◌≤◌, ◌≡◌, ◌≢◌, true, false, none, some, arith, inl, inr,
  Option-cases, some-injective, &&-true,
}
use stream_lite.Base.Table.{put, get-put_self, get}
use stream_lite.Base.Keys.{Distinct, get-HeldIn, get-All}
use stream_lite.Base.Exec.{ok, Result}
use stream_lite.Base.Text.{Text}
use stream_lite.Store.Model.{OutboxRow, OutboxStatus, Db}
use stream_lite.Store.Outbox.{is_open, is_pending, is_ripe}
use stream_lite.Events.Dispatcher.{
  Answer, accepted, broken, publish_due_events, publish_one, second,
}
use stream_lite.Events.Dispatcher.Pass.{
  publish_record-settles, settle, settled, claimed, publish_due_events-settles, rows_pending,
  rows-HeldIn,
}

-- What the counter and the times of a row say in each of its states.
pub record IsSound (row : OutboxRow) : Type 0 where
  pub untried : row.status ≡ OutboxStatus.pending → row.publish_attempts ≡ 0
  pub to_retry :
      row.status ≡ OutboxStatus.publish_failed
      → (1 ≤ row.publish_attempts) × (row.publish_attempts ≤ 2) × (row.next_publish_at ≢ none)
  pub done :
      row.status ≡ OutboxStatus.published
      → (row.publish_attempts ≤ 2) × (row.next_publish_at ≡ none) × (row.last_error_code ≡ none)
  pub given_up :
      row.status ≡ OutboxStatus.dead_lettered
      → (row.publish_attempts ≡ 3) × (row.next_publish_at ≡ none)

pub record AllSound (db : Db) : Type 0 where
  pub at : (j : ℕ) (row : OutboxRow) → get j db.outbox ≡ some row → IsSound row

settle-IsSound :
    (a : Answer) (as_of now : ℕ) (row : OutboxRow)
    → is_open row.status ≡ true
    → IsSound row
    → IsSound (settle a as_of now row)
unfolding settle
settle-IsSound (accepted stream_id) as_of now row o s = ground arith
settle-IsSound (broken code) as_of now row o s = ground arith

module _ (broker : ℕ → Answer) (limit as_of : ℕ) (db : Db) (distinct : Distinct db.outbox) where
  row_after :
      (j : ℕ)
      → get j (publish_due_events broker limit (some as_of) db).1.outbox
        ≡ settled (broker j) as_of db.now (get j (claimed as_of limit db)) (get j db.outbox)
  row_after j = (publish_due_events-settles broker limit as_of db distinct j).1

  claimed_open :
      (j : ℕ) (row : OutboxRow)
      → get j (claimed as_of limit db) ≡ some row
      → is_open row.status ≡ true
  claimed_open j row e =
      (&&-true (is_open row.status) (is_ripe as_of row.next_publish_at) (
        get-All (λ r. is_pending as_of r ≡ true) (claimed as_of limit db) j row
          (rows_pending broker limit as_of db distinct) e)).0

  -- Whatever the broker answers, a pass over an outbox of sound rows leaves sound rows.
  pub publish_due_events-AllSound :
      AllSound db → AllSound (publish_due_events broker limit (some as_of) db).1
  publish_due_events-AllSound h = record { at = at' }
    where
      at' :
          (j : ℕ) (row : OutboxRow)
          → get j (publish_due_events broker limit (some as_of) db).1.outbox ≡ some row
          → IsSound row
      at' j row e = elim (Option-cases (get j (claimed as_of limit db))) [
        | inl skipped ↦ h.at j row (rw (row_after j, skipped) at e)
        | inr (old, taken) ↦
            rw
              (← some-injective (settle (broker j) as_of db.now old) row
                (rw (row_after j, taken) at e))
              (settle-IsSound (broker j) as_of db.now old (claimed_open j old taken) (
                h.at j old (
                  get-HeldIn db.outbox (claimed as_of limit db) j
                    (rows-HeldIn broker limit as_of db distinct) taken)))
      ]

  -- One pass of publish_due_events, with any broker, leaves a row that is published or dead-lettered
  -- as it is, where no two rows of the outbox have one key.
  pub publish_due_events-closed :
      (j : ℕ) {row : OutboxRow}
      → get j db.outbox ≡ some row
      → is_open row.status ≡ false
      → get j (publish_due_events broker limit (some as_of) db).1.outbox ≡ some row
  publish_due_events-closed j {row} e closed =
      rw (row_after j) (elim (Option-cases (get j (claimed as_of limit db))) [
        | inl skipped ↦ rw skipped e
        | inr (old, taken) ↦ cc (
          get-HeldIn db.outbox (claimed as_of limit db) j
              (rows-HeldIn broker limit as_of db distinct) taken,
          claimed_open j old taken,
        )
      ])

-- One attempt at an instant while the broker is down.
abbrev pub failed_at : Text → ℕ → ℕ → Db → Db
failed_at code id instant db = (publish_one (broken code) id (record db { now = instant })).1

publish_one-settles :
    (a : Answer) (id : ℕ) (row : OutboxRow) (db : Db)
    → get id db.outbox ≡ some row
    → publish_one a id db ≡ (
      ok (settle a db.now db.now row),
      record db { outbox = put id (settle a db.now db.now row) db.outbox },
    )
unfolding publish_one
publish_one-settles a id row db found = rw found (publish_record-settles a id row db.now db found)

row_failed_at :
    (code : Text) (id instant : ℕ) (row : OutboxRow) (db : Db)
    → get id db.outbox ≡ some row
    → get id (failed_at code id instant db).outbox ≡ some (settle (broken code) instant instant row)
row_failed_at code id instant row db found =
    ap (λ (r : Result OutboxRow × Db). get id r.1.outbox)
      (publish_one-settles (broken code) id row (record db { now = instant }) found)
    ∙ get-put_self id (settle (broken code) instant instant row) db.outbox

-- The status, the counter and the next time of the row under a key.
abbrev pub progress : Option OutboxRow → Option (OutboxStatus × ℕ × Option ℕ)
progress none = none
progress (some row) = some (row.status, row.publish_attempts, row.next_publish_at)

-- A broker that stays down has a new event dead-lettered at the third attempt and not before:
-- after the first it is due again one second later, after the second two seconds later.
pub dead_letter_third :
    (code : Text) (id : ℕ) (row : OutboxRow) (db : Db) (t₀ t₁ t₂ : ℕ)
    → get id db.outbox ≡ some row
    → row.publish_attempts ≡ 0
    → let once = failed_at code id t₀ db in
      let twice = failed_at code id t₁ once in
      let thrice = failed_at code id t₂ twice in
      (progress (get id once.outbox) ≡ some (OutboxStatus.publish_failed, 1, some (t₀ + second)))
      × (progress (get id twice.outbox)
          ≡ some (OutboxStatus.publish_failed, 2, some (t₁ + 2 * second)))
      × (progress (get id thrice.outbox) ≡ some (OutboxStatus.dead_lettered, 3, none))
dead_letter_third code id row db t₀ t₁ t₂ found fresh =
    let e₁ = row_failed_at code id t₀ row db found in
    let e₂ =
      row_failed_at code id t₁ (settle (broken code) t₀ t₀ row) (failed_at code id t₀ db) e₁ in
    let e₃ =
      row_failed_at code id t₂ (settle (broken code) t₁ t₁ (settle (broken code) t₀ t₀ row))
        (failed_at code id t₁ (failed_at code id t₀ db)) e₂ in
    rw (e₁, e₂, e₃) (unfold settle in ground arith)
