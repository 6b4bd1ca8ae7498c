-- ===== src/Events/Dispatcher/Pass.antt =====
-- What one pass of publish_due_events (app/events/dispatcher.py) does to the outbox.
use stream_lite.Base.{
  subst, ℕ, ◌+◌, ◌*◌, ◌≡◌, refl, true, Option, none, some, List, [], ◌∷◌, map, leb, ◌==◌,
  if◌then◌else◌, keep, keep-true, take, sort_by, All, All-keep, All-take, All-sort_by, Bool-cases,
  inl, inr, ==_refl, ==_iff,
}
use stream_lite.Base.Table.{Table, get, put, get-put, get-put_self}
use stream_lite.Base.Keys.{
  Distinct, HeldIn, HeldIn-self, HeldIn-put, Distinct-take, Distinct-keep, Distinct-sort_by,
  get-Lacks,
}
use stream_lite.Base.Exec.{ok}
use stream_lite.Store.Model.{OutboxRow, OutboxStatus, Db}
use stream_lite.Store.Outbox.{
  list_pending_events, mark_dispatched, mark_publish_failed, mark_dead_letter, dispatched,
  failed_once_more, is_pending, earlier,
}
use stream_lite.Events.Dispatcher.{
  Answer, accepted, broken, second, max_publish_attempts, publish_record, publish_all,
  publish_due_events,
}

-- The row after the broker's answer: published, to be tried again after as many seconds as it has
-- failed, or dead-lettered.
unfoldable pub settle : Answer → ℕ → ℕ → OutboxRow → OutboxRow
settle (accepted stream_id) as_of now row = dispatched stream_id (some as_of) now row
settle (broken code) as_of now row =
    let failures = row.publish_attempts + 1 in
    if leb max_publish_attempts failures
    then failed_once_more OutboxStatus.dead_lettered code none now row
    else failed_once_more OutboxStatus.publish_failed code (some (as_of + failures * second)) now
        row

abbrev pub settled : Answer → ℕ → ℕ → Option OutboxRow → Option OutboxRow → Option OutboxRow
settled answer as_of now (some row) old = some (settle answer as_of now row)
settled answer as_of now none old = old

pub publish_record-settles :
    (a : Answer) (id : ℕ) (row : OutboxRow) (as_of : ℕ) (db : Db)
    → get id db.outbox ≡ some row
    → publish_record a (id, row) as_of db ≡ (
      ok (settle a as_of db.now row),
      record db { outbox = put id (settle a as_of db.now row) db.outbox },
    )
unfolding publish_record settle mark_dispatched mark_publish_failed mark_dead_letter
publish_record-settles (accepted stream_id) id row as_of db found = rw found
publish_record-settles (broken code) id row as_of db found =
    elim (Bool-cases (leb max_publish_attempts (row.publish_attempts + 1))) [
      | inl last ↦ rw (last, found)
      | inr again ↦ rw (again, found)
    ]

abbrev settle_all : (ℕ → Answer) → ℕ → ℕ → Table OutboxRow → Table OutboxRow → Table OutboxRow
settle_all broker as_of now [] t = t
settle_all broker as_of now ((id, row) ∷ records) t =
    settle_all broker as_of now records (put id (settle (broker id) as_of now row) t)

pub settled_rows : (ℕ → Answer) → ℕ → ℕ → Table OutboxRow → List OutboxRow
settled_rows broker as_of now = map (λ record'. settle (broker record'.0) as_of now record'.1)

publish_all-settles :
    (broker : ℕ → Answer) (records : Table OutboxRow) (as_of : ℕ) (db : Db)
    → Distinct records
    → HeldIn db.outbox records
    → publish_all broker records as_of db ≡ (
      ok (settled_rows broker as_of db.now records),
      record db { outbox = settle_all broker as_of db.now records db.outbox },
    )
unfolding publish_all settled_rows
publish_all-settles broker [] as_of db d h = refl
publish_all-settles broker ((id, row) ∷ records) as_of db d h =
    let t = put id (settle (broker id) as_of db.now row) db.outbox in
    rw (publish_record-settles (broker id) id row as_of db h.0) (
      rw (
        publish_all-settles broker records as_of (record db { outbox = t }) d.1
          (HeldIn-put id (settle (broker id) as_of db.now row) db.outbox records d.0 h.1)))

get-settle_all :
    (broker : ℕ → Answer) (as_of now : ℕ) (records t : Table OutboxRow) (j : ℕ)
    → Distinct records
    → get j (settle_all broker as_of now records t)
      ≡ settled (broker j) as_of now (get j records) (get j t)
unfolding get
get-settle_all broker as_of now [] t j d = refl
get-settle_all broker as_of now ((id, row) ∷ records) t j d = elim (Bool-cases (id == j)) [
  | inl same ↦
      subst
        (λ i.
          get i (settle_all broker as_of now ((id, row) ∷ records) t)
          ≡ settled (broker i) as_of now (get i ((id, row) ∷ records)) (get i t))
        ((==_iff id j).0 same)
        (own (
          get-settle_all broker as_of now records (put id (settle (broker id) as_of now row) t) id
            d.1))
  | inr other ↦ rw (
    get-settle_all broker as_of now records (put id (settle (broker id) as_of now row) t) j d.1,
    other,
    get-put,
    other,
  )
]
  where
    own :
        get id (settle_all broker as_of now records (put id (settle (broker id) as_of now row) t))
          ≡ settled
              (broker id)
              as_of
              now
              (get id records)
              (get id (put id (settle (broker id) as_of now row) t))
        → get id (settle_all broker as_of now records (put id (settle (broker id) as_of now row) t))
          ≡ settled (broker id) as_of now (get id ((id, row) ∷ records)) (get id t)
    own ih = rw (ih, get-Lacks id records d.0, get-put_self, ==_refl)

-- The rows that a pass takes up.
abbrev pub claimed : ℕ → ℕ → Db → Table OutboxRow
claimed as_of limit db = take limit (sort_by earlier (keep (is_pending as_of) db.outbox))

module _ (broker : ℕ → Answer) (limit as_of : ℕ) (db : Db) (distinct : Distinct db.outbox) where
  rows-Distinct : Distinct (claimed as_of limit db)
  rows-Distinct = Distinct-take limit (sort_by earlier (keep (is_pending as_of) db.outbox)) (
      Distinct-sort_by earlier (keep (is_pending as_of) db.outbox)
        (Distinct-keep (is_pending as_of) db.outbox distinct))

  rows-All :
      (P : ℕ × OutboxRow → Type 0)
      → All P (keep (is_pending as_of) db.outbox)
      → All P (claimed as_of limit db)
  rows-All P h =
      All-take P limit (sort_by earlier (keep (is_pending as_of) db.outbox))
        (All-sort_by P earlier (keep (is_pending as_of) db.outbox) h)

  pub rows-HeldIn : HeldIn db.outbox (claimed as_of limit db)
  rows-HeldIn =
      rows-All (λ row. get row.0 db.outbox ≡ some row.1)
        (All-keep (λ row. get row.0 db.outbox ≡ some row.1) (is_pending as_of) db.outbox
          (HeldIn-self db.outbox distinct))

  pub rows_pending : All (λ row. is_pending as_of row ≡ true) (claimed as_of limit db)
  rows_pending =
      rows-All (λ row. is_pending as_of row ≡ true) (keep-true (is_pending as_of) db.outbox)

  -- A pass raises nothing, and writes to a row if and only if it took the row up: then the row is
  -- settled by the broker's answer for it.
  pub publish_due_events-settles :
      (j : ℕ)
      → let (result, after) = publish_due_events broker limit (some as_of) db in
        (result ≡ ok (settled_rows broker as_of db.now (claimed as_of limit db)))
        × (get j after.outbox
            ≡ settled (broker j) as_of db.now (get j (claimed as_of limit db)) (get j db.outbox))
  unfolding publish_due_events list_pending_events
  publish_due_events-settles j =
      rw (publish_all-settles broker (claimed as_of limit db) as_of db rows-Distinct rows-HeldIn) (
        refl,
        get-settle_all broker as_of db.now (claimed as_of limit db) db.outbox j rows-Distinct,
      )
