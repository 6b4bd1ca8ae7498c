-- ===== src/Processing/Worker/Keeps.antt =====
-- What the processing worker of app/processing/engine.py keeps, however a run ends.
use stream_lite.Base.{ℕ, ◌≡◌, refl, Bool, true, Option, none, some, arith}
use stream_lite.Base.Text.{Text}
use stream_lite.Base.Table.{get}
use stream_lite.Base.Exec.{Result, ok, err, bad_argument, Exec, caught}
use stream_lite.Base.Exec.Leads.{Leads, Leads-if, Leads-pure, Leads-lift, Leads-bind, Leads-caught}
use stream_lite.Base.Exec.Off.{Off, Off-if, Off-pure, Off-lift, Off-bind, Off-caught}
use stream_lite.Jobs.{JobState, state_eq, transition_allowed}
use stream_lite.Store.Model.{Job, Db}
use stream_lite.Store.Jobs.{move}
use stream_lite.Store.Core.{
  core, enqueue_event-Off, create_processing_attempt-Off, complete_processing_attempt-Off,
  fail_processing_attempt-Off, create_output_manifest-Off, get_latest_attempt-Off, claim_stage-Off,
  release_stage-Off,
}
use stream_lite.Store.Stable.{
  Stable, Holding, Standing, core-records, Stable-Off, Holding-Off, Standing-Off, move-Standing,
  move_on-Leads,
}
use stream_lite.Processing.{AdapterResult, Adapter, Readings, by_processor, is_processable_state}
use stream_lite.Processing.Worker.{
  Work, unexpected_failure, lacks_text, begin_attempt, run_adapter, result_or_failure, run_begun,
  attempt_run, Artifacts, artifacts_of, complete_with, complete_success, fail_to, fail_attempt,
  failed_next, complete, run_claimed, with_claim, claim_and_run, is_confirmed, for_job, process_one,
}

pub processable-fine :
    (s : JobState) (n : ℕ)
    → is_processable_state s n ≡ true
    → transition_allowed s JobState.processing ≡ true
unfolding is_processable_state transition_allowed state_eq
processable-fine s n h = ground arith

pub next-fine :
    (max : ℕ) (b : Bool) (n : ℕ)
    → transition_allowed JobState.processing (failed_next max b n) ≡ true
unfolding transition_allowed
next-fine max b n = ground arith

pub run_adapter-Off :
    (adapter : Adapter) (clock : Readings) (w : Work) → Off core (run_adapter adapter clock w)
unfolding run_adapter
run_adapter-Off adapter clock w =
    Off-bind _ _ (enqueue_event-Off _)
      (λ _. Off-if (lacks_text w.job.source_sha256) _ _ (Off-pure _) (Off-lift _))

module _ {P : Db → Type 0} (stable : Stable P) where
  keep : (db : Db) → P db → P db
  keep db h = h

  module _ (w : Work) where
    abbrev Ready : Db → Type 0
    Ready = Holding P w.job_id w.job

    abbrev Started : Db → Type 0
    Started = Standing P w.job_id JobState.processing

    started : (db : Db) → Started db → Started db
    started db h = h

    Started-P : (db : Db) → Started db → P db
    Started-P db h = h.kept

    begin_attempt-Leads :
        (adapter : Adapter) (clock : Readings)
        → transition_allowed w.job.state JobState.processing ≡ true
        → Leads Ready Started (begin_attempt adapter clock w)
    unfolding begin_attempt
    begin_attempt-Leads adapter clock fine =
        Leads-bind started _ _
          (record {
            at = λ db h.
                move-Standing stable db w.job_id w.job _ _ _
                  (record { found = h.found; previous = refl; numbered = refl; fine = fine })
                  h.kept;
          })
          (λ _. Standing-Off stable _ _ _ (core-records _ (create_processing_attempt-Off _)))

    pub attempt_run-Leads :
        (adapter : Adapter) (clock : Readings)
        → transition_allowed w.job.state JobState.processing ≡ true
        → Leads Ready Started (attempt_run adapter clock w)
    unfolding attempt_run
    attempt_run-Leads adapter clock fine =
        Leads-bind started _ _ (Leads-caught _ (begin_attempt-Leads adapter clock fine)) rest
      where
        rest : (begun : Result ℕ) → Leads Started Started (run_begun adapter clock w begun)
        rest (err e) = Leads-pure started (none, unexpected_failure adapter clock w)
        rest (ok id) =
            Leads-bind started (caught (run_adapter adapter clock w)) _
              (Standing-Off stable w.job_id JobState.processing
                (caught (run_adapter adapter clock w))
                (core-records (caught (run_adapter adapter clock w))
                  (Off-caught _ (run_adapter-Off adapter clock w))))
              (λ outcome. Leads-pure started (some id, result_or_failure adapter clock w outcome))

    -- The move from PROCESSING on.
    move_on :
        (e : Option Text) (a : Option ℕ) (new : JobState) (reason : Text) (correlation at : ℕ)
        → transition_allowed JobState.processing new ≡ true
        → Leads Started P
            (move w.job_id e a (by_processor JobState.processing new reason correlation at))
    move_on e a new reason correlation at fine = record {
      at = λ db h.
          ((move_on-Leads stable w.job_id JobState.processing e a
              (by_processor JobState.processing new reason correlation at) refl refl fine).at
            db h).kept;
    }

    on_started : {A : Type 0} (m : Exec Db A) → Off core m → Leads Started Started m
    on_started m h = Standing-Off stable w.job_id JobState.processing m (core-records m h)

    on_kept : {A : Type 0} (m : Exec Db A) → Off core m → Leads P P m
    on_kept m h = Stable-Off stable m (core-records m h)

    complete_with-Leads :
        (answer : AdapterResult) (a : Artifacts) → Leads Started P (complete_with w answer a)
    unfolding complete_with transition_allowed
    complete_with-Leads answer a =
        Leads-bind {R = Started} Started-P _ _ (on_started _ (create_output_manifest-Off _ _)) (λ _.
          Leads-bind {R = Started} Started-P _ _
            (on_started _ (complete_processing_attempt-Off _ _))
            (λ _. Leads-bind keep _ _ (move_on _ _ JobState.processed _ _ _ refl) (λ _.
              Leads-bind keep _ _ (on_kept _ (enqueue_event-Off _)) (λ _. Leads-pure keep _))))

    pub fail_attempt-Off :
        (o : Option ℕ) (code : Text) (answer : AdapterResult)
        → Off core (fail_attempt o code answer)
    fail_attempt-Off none code answer = Off-pure tt
    fail_attempt-Off (some id) code answer =
        Off-bind _ _ (fail_processing_attempt-Off id code _ _) (λ _. Off-pure tt)

    fail_to-Leads :
        (next : JobState) (o : Option ℕ) (answer : AdapterResult)
        → transition_allowed JobState.processing next ≡ true
        → Leads Started P (fail_to next w o answer)
    unfolding fail_to
    fail_to-Leads next o answer fine =
        Leads-bind {R = Started} Started-P _ _ (on_started _ (fail_attempt-Off o _ answer)) (λ _.
          Leads-bind keep _ _ (move_on _ _ next _ _ _ fine)
            (λ _. Leads-bind keep _ _ (on_kept _ (enqueue_event-Off _)) (λ _. Leads-pure keep _)))

    complete-Leads :
        (max : ℕ) (o : Option ℕ) (answer : AdapterResult)
        → Leads Started P (complete max w (o, answer))
    unfolding complete
    complete-Leads max o answer =
        Leads-if answer.is_processed _ _ (λ _. success (artifacts_of o answer))
          (λ _. fail_to-Leads _ o answer (next-fine max answer.retryable w.attempt_number))
      where
        success : (a : Option Artifacts) → Leads Started P (complete_success w answer a)
        success none = Leads-lift Started-P (err bad_argument)
        success (some a) = complete_with-Leads answer a

    run_claimed-Leads :
        (adapter : Adapter) (max : ℕ) (clock : Readings) (claim_id : ℕ)
        → transition_allowed w.job.state JobState.processing ≡ true
        → Leads Ready P (run_claimed adapter max clock w claim_id)
    unfolding run_claimed
    run_claimed-Leads adapter max clock claim_id fine =
        Leads-bind {R = Started} Started-P _ _ (attempt_run-Leads adapter clock fine) (λ ended.
          Leads-bind keep _ _ (Leads-caught _ (complete-Leads max ended.0 ended.1)) (λ outcome.
            Leads-bind keep _ _
              (Stable-Off stable _ (release_stage-Off claim_id (some clock.released_at)))
              (λ _. Leads-lift keep outcome)))

    Ready-P : (db : Db) → Ready db → P db
    Ready-P db h = h.kept

    claim_and_run-Leads :
        (adapter : Adapter) (max : ℕ) (clock : Readings)
        → transition_allowed w.job.state JobState.processing ≡ true
        → Leads Ready P (claim_and_run adapter max clock w)
    unfolding claim_and_run
    claim_and_run-Leads adapter max clock fine =
        Leads-bind {R = Ready} Ready-P _ _
          (Holding-Off stable _ _ _ (Off-caught _ (claim_stage-Off _ _ _ _ _ _))) claimed
      where
        claimed : (r : Result ℕ) → Leads Ready P (with_claim adapter max clock w r)
        claimed (ok id) = run_claimed-Leads adapter max clock id fine
        claimed (err e) = Leads-pure Ready-P _

  -- Whatever is kept by accepted moves of jobs and does not depend on the other tables is kept by
  -- the worker.
  pub process_one-Leads :
      (adapter : Adapter) (max : ℕ) (clock : Readings) (j : ℕ) (correlation : Option ℕ)
      → Leads P P (process_one adapter max clock j correlation)
  unfolding process_one
  process_one-Leads adapter max clock j correlation = record {
    at = λ db h. from db h (get j db.jobs) refl;
  }
    where
      from :
          (db : Db)
          → P db
          → (o : Option Job) → get j db.jobs ≡ o
          → P (for_job adapter max clock j correlation o db).1
      from db h none e = h
      from db h (some job) e =
          (Leads-if {P = Holding P j job} {Q = P}
              (is_processable_state job.state job.attempt_number) _ _
              (λ fine.
                Leads-bind {R = Holding P j job} (λ _ r. r.kept) _ _
                  (Holding-Off stable j job _ (core-records _ (get_latest_attempt-Off j)))
                  (λ latest.
                    Leads-if (is_confirmed latest) _ _
                      (λ _.
                        claim_and_run-Leads _ adapter max clock
                          (processable-fine job.state job.attempt_number fine))
                      (λ _. Leads-pure (λ _ r. r.kept) _)))
              (λ _. Leads-pure (λ _ r. r.kept) _)).at
            db (record { kept = h; found = e })
