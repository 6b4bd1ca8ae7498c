-- ===== src/Delivery/Keeps/Run.antt =====
-- What deliver_one of app/delivery/service.py keeps, however a run ends: from the checks on the job
-- to its targets.
use stream_lite.Base.{ℕ, suc, ◌≡◌, refl, true, Option, none, some, List, [], ◌∷◌}
use stream_lite.Base.Exec.{err, bad_argument}
use stream_lite.Base.Exec.Leads.{Leads, Leads-if, Leads-pure, Leads-bind}
use stream_lite.Base.Exec.Off.{Off, Off-pure, Off-lift, Off-bind}
use stream_lite.Base.Table.{get}
use stream_lite.Base.Text.{Text, Casing}
use stream_lite.Delivery.{Manifest, Files, Readings, is_deliverable_state}
use stream_lite.Delivery.Keeps.Worker.{deliver_to-Leads}
use stream_lite.Delivery.Run.{
  resolution_targets, targets_for, resolve_targets, work, with_outputs, with_file, with_manifest,
  for_job, deliver_one, BatchResult, deliver_each, claim_and_deliver,
}
use stream_lite.Routing.{Tagged, tags, tag_invalid, Destination}
use stream_lite.Routing.Delivery.{Resolution}
use stream_lite.Store.Attempts.{latest_processed_manifest}
use stream_lite.Store.Core.{core}
use stream_lite.Store.Folders.{list_sources, list_destinations}
use stream_lite.Store.Jobs.{list_jobs}
use stream_lite.Store.Model.{Job, Db}
use stream_lite.Store.Rows.{OutputManifestRow}
use stream_lite.Store.Stable.{Stable, Holding, core-records, Holding-Off}

-- Reads leave the session as it is.
list_sources-Off : (watcher_id : ℕ) → Off core (list_sources watcher_id)
unfolding list_sources
list_sources-Off watcher_id = record { at = λ db. refl }

list_destinations-Off : (watcher_id : ℕ) → Off core (list_destinations watcher_id)
unfolding list_destinations
list_destinations-Off watcher_id = record { at = λ db. refl }

pub latest_processed_manifest-Off : (j : ℕ) → Off core (latest_processed_manifest j)
unfolding latest_processed_manifest
latest_processed_manifest-Off j = record { at = λ db. refl }

resolution_targets-Off : (r : Tagged Resolution) → Off core (resolution_targets r)
resolution_targets-Off (tags resolution) = Off-pure _
resolution_targets-Off (tag_invalid tag) = Off-lift (err bad_argument)

targets_for-Off :
    (k : Casing) (source_tags : List Text) (destinations : List Destination)
    → Off core (targets_for k source_tags destinations)
targets_for-Off k [] destinations = Off-pure _
targets_for-Off k (tag ∷ source_tags) destinations = resolution_targets-Off _

pub resolve_targets-Off :
    (k : Casing) (watcher_id source_folder_id : ℕ)
    → Off core (resolve_targets k watcher_id source_folder_id)
unfolding resolve_targets
resolve_targets-Off k watcher_id source_folder_id =
    Off-bind _ _ (list_destinations-Off watcher_id) (λ destinations.
      Off-bind _ _ (list_sources-Off watcher_id) (λ sources. targets_for-Off k _ _))

module _ {P : Db → Type 0} (stable : Stable P) (k : Casing) (files : Files) (max : ℕ) where
  module _ (clock : Readings) (j : ℕ) (correlation : Option ℕ) where
    module _ (job : Job) (fine : is_deliverable_state job.state job.attempt_number ≡ true) where
      abbrev Ready : Db → Type 0
      Ready = Holding P j job

      ready : (db : Db) → Ready db → P db
      ready db h = h.kept

      with_outputs-Leads :
          (row : OutputManifestRow) (manifest : Manifest) (outputs : List Text)
          → Leads Ready P (with_outputs k files max clock j correlation job row manifest outputs)
      with_outputs-Leads row manifest [] = Leads-pure ready _
      with_outputs-Leads row manifest (source ∷ others) =
          Leads-bind {R = Ready} ready _ _
            (Holding-Off stable j job _ (core-records _ (resolve_targets-Off k _ _)))
            (λ targets.
              deliver_to-Leads stable files max clock
                (work k files max clock j correlation job row manifest) source targets fine)

      with_file-Leads :
          (row : OutputManifestRow) (file : Option Manifest)
          → Leads Ready P (with_file k files max clock j correlation job row file)
      with_file-Leads row none = Leads-pure ready _
      with_file-Leads row (some manifest) = with_outputs-Leads row manifest _

      with_manifest-Leads :
          (found : Option (ℕ × OutputManifestRow))
          → Leads Ready P (with_manifest k files max clock j correlation job found)
      with_manifest-Leads none = Leads-pure ready _
      with_manifest-Leads (some (id, row)) = with_file-Leads row _

    -- Whatever is kept by accepted moves of jobs and does not depend on the other tables is kept
    -- by the worker.
    pub deliver_one-Leads : Leads P P (deliver_one k files max clock j correlation)
    unfolding deliver_one
    deliver_one-Leads = record { at = λ db h. from db h (get j db.jobs) refl }
      where
        from :
            (db : Db)
            → P db
            → (o : Option Job) → get j db.jobs ≡ o
            → P (for_job k files max clock j correlation o db).1
        from db h none e = h
        from db h (some job) e =
            (Leads-if {P = Holding P j job} {Q = P}
                (is_deliverable_state job.state job.attempt_number) _ _
                (λ fine.
                  Leads-bind {R = Holding P j job} (λ _ r. r.kept) _ _
                    (Holding-Off stable j job _ (core-records _ (latest_processed_manifest-Off j)))
                    (with_manifest-Leads job fine))
                (λ _. Leads-pure (λ _ r. r.kept) _)).at
              db (record { kept = h; found = e })

  deliver_each-Leads :
      (clock : ℕ → Readings) (correlation : Option ℕ) (jobs : List (ℕ × Job)) (b : BatchResult)
      → Leads P P (deliver_each k files max correlation clock jobs b)
  unfolding deliver_each
  deliver_each-Leads clock correlation [] b = Leads-pure (λ _ h. h) b
  deliver_each-Leads clock correlation ((id, job) ∷ jobs) b =
      Leads-bind (λ _ h. h) _ _ (deliver_one-Leads (clock 0) id _)
        (λ result. deliver_each-Leads (λ i. clock (suc i)) correlation jobs _)

  pub claim_and_deliver-Leads :
      (clock : ℕ → Readings) (correlation : Option ℕ) (limit : ℕ)
      → Leads P P (claim_and_deliver k files max correlation clock limit)
  unfolding claim_and_deliver list_jobs
  claim_and_deliver-Leads clock correlation limit = record {
    at = λ db h. (deliver_each-Leads clock correlation _ _).at db h;
  }
