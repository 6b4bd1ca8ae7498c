-- ===== src/Store/Stable.antt =====
-- What the services keep: a predicate on the session that accepted moves keep (update_state with
-- append_state_history of app/repositories/jobs.py) and that writes to the other tables keep.
use stream_lite.Base.{ℕ, ◌≡◌, refl, ap, sym, ◌∙◌, true, Option, none, some, List, ◌∷◌, ◌++◌}
use stream_lite.Base.Text.{Text}
use stream_lite.Base.Table.{get, get-put_self}
use stream_lite.Base.Exec.{Exec}
use stream_lite.Base.Exec.Leads.{Leads}
use stream_lite.Base.Exec.Off.{Off, Off-part}
use stream_lite.Jobs.{JobState, transition_allowed}
use stream_lite.Store.Model.{Job, HistoryRow, Db}
use stream_lite.Store.Jobs.{Transition, move, moved, move-accepted, history_row}
use stream_lite.Store.Audit.{Audited, Audited-same, move-Audited}
use stream_lite.Store.Core.{Core, core, records}

-- A move of a job that the table of transitions accepts, told by its actor as it is.
pub record Accepts (db : Db) (j : ℕ) (job : Job) (t : Transition) : Type 0 where
  pub found : get j db.jobs ≡ some job
  pub previous : t.previous_state ≡ some job.state
  pub numbered : t.transition_sequence ≡ none
  pub fine : transition_allowed job.state t.new_state ≡ true

pub record Stable (P : Db → Type 0) : Type 0 where
  pub off : (db db' : Db) → db'.jobs ≡ db.jobs → db'.history ≡ db.history → P db → P db'
  pub moves :
      (db : Db) (j : ℕ) (job : Job) (e : Option Text) (a : Option ℕ) (t : Transition)
      → Accepts db j job t
      → P db
      → P (move j e a t db).1

-- With the row of a job at hand.
pub record Holding (P : Db → Type 0) (j : ℕ) (job : Job) (db : Db) : Type 0 where
  pub kept : P db
  pub found : get j db.jobs ≡ some job

-- With a job in a state.
pub record Standing (P : Db → Type 0) (j : ℕ) (state : JobState) (db : Db) : Type 0 where
  pub kept : P db
  pub job : Job
  pub found : get j db.jobs ≡ some job
  pub stands : job.state ≡ state

pub core-records : {A : Type 0} (m : Exec Db A) → Off core m → Off records m
core-records m h = Off-part (λ (c : Core). (c.jobs, c.history)) m h

module _ {P : Db → Type 0} (stable : Stable P) where
  pub Stable-Off : {A : Type 0} (m : Exec Db A) → Off records m → Leads P P m
  Stable-Off m h = record {
    at = λ db p. stable.off db (m db).1 (ap (λ r. r.0) (h.at db)) (ap (λ r. r.1) (h.at db)) p;
  }

  pub Holding-Off :
      {A : Type 0} (j : ℕ) (job : Job) (m : Exec Db A)
      → Off records m
      → Leads (Holding P j job) (Holding P j job) m
  Holding-Off j job m h = record {
    at = λ db p. record {
      kept = (Stable-Off m h).at db p.kept;
      found = rw (ap (λ r. r.0) (h.at db)) p.found;
    };
  }

  pub Standing-Off :
      {A : Type 0} (j : ℕ) (state : JobState) (m : Exec Db A)
      → Off records m
      → Leads (Standing P j state) (Standing P j state) m
  Standing-Off j state m h = record {
    at = λ db p. record {
      kept = (Stable-Off m h).at db p.kept;
      job = p.job;
      found = rw (ap (λ r. r.0) (h.at db)) p.found;
      stands = p.stands;
    };
  }

  -- After an accepted move the job stands in its new state.
  pub move-Standing :
      (db : Db) (j : ℕ) (job : Job) (e : Option Text) (a : Option ℕ) (t : Transition)
      → Accepts db j job t
      → P db
      → Standing P j t.new_state (move j e a t db).1
  move-Standing db j job e a t h p = record {
    kept = stable.moves db j job e a t h p;
    job = moved t.new_state e a db.now job;
    found =
        rw (move-accepted j e a db h.found t h.fine)
          (get-put_self j (moved t.new_state e a db.now job) db.jobs);
    stands = unfold moved in refl;
  }

  -- From the state where it stands, told by its actor as it is.
  pub move_on-Leads :
      (j : ℕ) (old : JobState) (e : Option Text) (a : Option ℕ) (t : Transition)
      → t.previous_state ≡ some old
      → t.transition_sequence ≡ none
      → transition_allowed old t.new_state ≡ true
      → Leads (Standing P j old) (Standing P j t.new_state) (move j e a t)
  move_on-Leads j old e a t previous numbered fine = record {
    at = λ db h.
        move-Standing db j h.job e a t
          (record {
            found = h.found;
            previous = previous ∙ ap some (sym h.stands);
            numbered = numbered;
            fine = rw h.stands fine;
          })
          h.kept;
  }

-- Where the history of every job retraces its states, it still does.
pub Audited-Stable : Stable Audited
Audited-Stable = record {
  off = λ db db' jobs history h. Audited-same h db' jobs history;
  moves = λ db j job e a t h p. move-Audited p j job e a t h.found h.previous h.numbered h.fine;
}

-- The history has only grown: `rows` stand on top of what was there.
pub record Grown (old : List HistoryRow) (db : Db) : Type 0 where
  pub rows : List HistoryRow
  pub same : db.history ≡ rows ++ old

pub Grown-Stable : (old : List HistoryRow) → Stable (Grown old)
Grown-Stable old = record {
  off = λ db db' jobs history h. record { rows = h.rows; same = rw history h.same };
  moves = λ db j job e a t h p. rw (move-accepted j e a db h.found t h.fine) (record {
    rows = _ ∷ p.rows;
    same = ap (λ r. history_row db.next_uuid j t db.history ∷ r) p.same;
  });
}
