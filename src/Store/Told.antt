-- ===== src/Store/Told.antt =====
-- What a worker tells of the state of a job, beside the row of that job.
use stream_lite.Base.{ℕ, ◌≡◌, sym, ap, ◌∙◌, Option, some}
use stream_lite.Base.Table.{get}
use stream_lite.Base.Exec.{Exec}
use stream_lite.Base.Exec.Leads.{Leads}
use stream_lite.Base.Exec.Off.{Off}
use stream_lite.Jobs.{JobState}
use stream_lite.Store.Model.{Job, Db}
use stream_lite.Store.Core.{records}
use stream_lite.Store.Audit.{state_of}
use stream_lite.Store.Stable.{Stable, Holding, Standing}

-- No demand on the session.
abbrev pub Anything : Db → Type 0
Anything db = Unit

pub Anything-Stable : Stable Anything
Anything-Stable = record { off = λ db db' jobs history h. tt; moves = λ db j job e a t h p. tt }

-- The state that is named is the state of the job's row; none is named where there is no row.
abbrev pub Tells : ℕ → Option JobState → Db → Type 0
Tells j named db = named ≡ state_of (get j db.jobs)

pub Standing-Tells :
    (j : ℕ) (s : JobState) (db : Db) → Standing Anything j s db → Tells j (some s) db
Standing-Tells j s db h = ap some (sym h.stands) ∙ ap state_of (sym h.found)

pub Holding-Tells :
    (j : ℕ) (job : Job) (db : Db) → Holding Anything j job db → Tells j (some job.state) db
Holding-Tells j job db h = ap state_of (sym h.found)

-- A write to another table.
pub Tells-Off :
    {A : Type 0} (j : ℕ) (named : Option JobState) (m : Exec Db A)
    → Off records m
    → Leads (Tells j named) (Tells j named) m
Tells-Off j named m h = record {
  at = λ db p. p ∙ ap (λ jobs. state_of (get j jobs)) (sym (ap (λ r. r.0) (h.at db)));
}
