-- ===== src/Store/Freed.antt =====
-- A stage that a worker claims and gives back (claim_stage and release_stage of
-- app/repositories/stage_claims.py, under `try` and `finally`): no lease of the worker stays active.
use stream_lite.Base.{
  ℕ, ◌≡◌, refl, sym, ap, not, ◌&&◌, ◌∙◌, true, false, Option, none, some, some-injective, ◌==◌,
  Bool-cases, inl, inr,
}
use stream_lite.Base.Exec.{Result, ok, err, Error, already_claimed, Exec, caught, finally, ◌>>=◌}
use stream_lite.Base.Exec.Leads.{Leads, Leads-bind, Leads-lift}
use stream_lite.Base.Exec.Off.{Off, Off-part, Off-bind}
use stream_lite.Base.Table.{Table, get, put, get-put, get-put_self}
use stream_lite.Base.Text.{Text}
use stream_lite.Jobs.{JobState, state_eq, allowed}
use stream_lite.Store.Claims.{
  claim_stage, claim_row, find_claim, is_held, is_active, new_claim, recovered, release_stage,
  write_claim,
}
use stream_lite.Store.Core.{Core, core}
use stream_lite.Store.Jobs.{
  Transition, move, update_state, append_state_history, update_row, or_old,
}
use stream_lite.Store.Model.{Stage, Service, Job, Claim, ClaimStatus, Db, generate_uuid}

abbrev pub claims_of : Db → Table Claim
claims_of db = db.claims

pub core-claims : {A : Type 0} (m : Exec Db A) → Off core m → Off claims_of m
core-claims m h = Off-part (λ (c : Core). c.claims) m h

update_row-claims :
    (j : ℕ) (new_state : JobState) (e : Option Text) (a : Option ℕ) (o : Option Job) (db : Db)
    → claims_of (update_row j new_state e a o db).1 ≡ db.claims
update_row-claims j new_state e a none db = refl
update_row-claims j new_state e a (some job) db =
    elim (Bool-cases (not (state_eq new_state job.state) && not (allowed job.state new_state))) [
      | inl bad ↦ rw bad refl
      | inr fine ↦ rw fine refl
    ]

update_state-claims :
    (j : ℕ) (new_state : JobState) (e : Option Text) (a : Option ℕ)
    → Off claims_of (update_state j new_state e a)
unfolding update_state
update_state-claims j new_state e a = record {
  at = λ db. update_row-claims j new_state e a (get j db.jobs) db;
}

append_state_history-claims : (j : ℕ) (t : Transition) → Off claims_of (append_state_history j t)
unfolding append_state_history generate_uuid
append_state_history-claims j t = record { at = λ db. refl }

-- A move does not touch the claims.
pub move-claims :
    (j : ℕ) (e : Option Text) (a : Option ℕ) (t : Transition) → Off claims_of (move j e a t)
unfolding move
move-claims j e a t =
    Off-bind (update_state j t.new_state e a) (λ _. append_state_history j t)
      (update_state-claims j t.new_state e a) (λ _. append_state_history-claims j t)

module _ (c : Table Claim) where
  pub record Same (db : Db) : Type 0 where
    pub same : db.claims ≡ c

  -- A lease that is active was there before, as it is.
  pub record Freed (db : Db) : Type 0 where
    pub at :
        (id : ℕ) (row : Claim)
        → get id db.claims ≡ some row
        → is_active row.claim_status ≡ true
        → get id c ≡ some row

  -- One row was written.
  pub record Held (id : ℕ) (db : Db) : Type 0 where
    pub row : Claim
    pub held : db.claims ≡ put id row c

  pub Same-Freed : (db : Db) → Same db → Freed db
  Same-Freed db h = record { at = λ id row found active. rw h.same at found }

  pub Same-Off : {A : Type 0} (m : Exec Db A) → Off claims_of m → Leads Same Same m
  Same-Off m h = record { at = λ db p. record { same = h.at db ∙ p.same } }

  pub Held-Off :
      {A : Type 0} (id : ℕ) (m : Exec Db A) → Off claims_of m → Leads (Held id) (Held id) m
  Held-Off id m h = record { at = λ db p. record { row = p.row; held = h.at db ∙ p.held } }

  -- The row is written again, as released.
  written-Freed :
      (id : ℕ) (r : Claim) (db db' : Db)
      → Held id db
      → is_active r.claim_status ≡ false
      → db'.claims ≡ put id r db.claims
      → Freed db'
  written-Freed id r db db' h closed wrote = record { at = at' }
    where
      own : (i : ℕ) (row : Claim) → r ≡ row → is_active row.claim_status ≡ true → get i c ≡ some row
      own i row same active = absent (sym closed ∙ ap (λ k. is_active k.claim_status) same ∙ active)
        where
          absent : false ≡ true → get i c ≡ some row
          absent e = cc

      at' :
          (i : ℕ) (row : Claim)
          → get i db'.claims ≡ some row
          → is_active row.claim_status ≡ true
          → get i c ≡ some row
      at' i row found active = elim (Bool-cases (id == i)) [
        | inl same ↦ own i row (some-injective r row (rw (wrote, get-put, same) at found)) active
        | inr differs ↦ rw (wrote, get-put, differs, h.held, get-put, differs) at found
      ]

  release_stage-Leads :
      (id : ℕ) (released_at : Option ℕ) → Leads (Held id) Freed (release_stage id released_at)
  unfolding release_stage
  release_stage-Leads id released_at = record {
    at = λ db h. from db h (get id db.claims) (ap (get id) h.held ∙ get-put_self id h.row c);
  }
    where
      given_back : ℕ → Claim → Claim
      given_back now row = record row {
        claim_status = ClaimStatus.released;
        released_at = some (or_old released_at now);
        updated_at = now;
      }

      from :
          (db : Db) (h : Held id db) (o : Option Claim)
          → o ≡ some h.row
          → Freed (write_claim id given_back o db).1
      from db h none e = cc
      from db h (some row) e = written-Freed id _ db _ h refl refl

  -- What runs between the claim and its release does not touch the claims.
  pub finally-Leads :
      {A : Type 0} (m : Exec Db A) (id : ℕ) (released_at : Option ℕ)
      → Off claims_of m
      → Leads (Held id) Freed (finally m (release_stage id released_at))
  finally-Leads m id released_at h = record {
    at = λ db p.
        (Leads-bind {R = Freed} {Q = Freed} (λ _ r. r) (release_stage id released_at) _
            (release_stage-Leads id released_at) (λ _. Leads-lift (λ _ r. r) (m db).0)).at
          (m db).1 ((Held-Off id m h).at db p);
  }

  pub claim_stage-Leads :
      {A : Type 0} (job_id : ℕ) (stage : Stage) (n : ℕ) (owner : Service) (lease : ℕ)
      (correlation : Option ℕ) (f : Result ℕ → Exec Db A)
      → ((id : ℕ) → Leads (Held id) Freed (f (ok id)))
      → ((e : Error) → Leads Same Freed (f (err e)))
      → Leads Same Freed (caught (claim_stage job_id stage n owner lease correlation) >>= f)
  unfolding claim_stage generate_uuid
  claim_stage-Leads job_id stage n owner lease correlation f h k = record {
    at = λ db p. from db p (find_claim job_id stage n db.claims);
  }
    where
      from :
          (db : Db)
          → Same db
          → (o : Option (ℕ × Claim))
          → Freed
              (f
                (claim_row job_id stage n owner lease correlation o db).0
                (claim_row job_id stage n owner lease correlation o db).1).1
      from db p none = (h db.next_uuid).at _ (record {
        row = new_claim job_id stage n owner lease correlation db.now;
        held = ap (put db.next_uuid _) p.same;
      })
      from db p (some (id, row)) = elim (Bool-cases (is_held db.now row)) [
        | inl live ↦ rw live ((k already_claimed).at db p)
        | inr free ↦ rw free (
            (h id).at _ (record {
              row = recovered owner lease correlation db.now row;
              held = ap (put id _) p.same;
            }))
      ]
