-- ===== src/Delivery/Keeps/Outcomes.antt =====
-- How the copies to the destinations decide on the final state (deliver_one and
-- _final_state_from_outcomes of app/delivery/service.py).
use stream_lite.Base.{ℕ, ◌+◌, ◌≡◌, refl, some, List, length, arith}
use stream_lite.Base.Exec.{ok}
use stream_lite.Base.Exec.Yields.{Yields, Yields-pure, Yields-bind, Yields-lift-bind}
use stream_lite.Base.Text.{Text}
use stream_lite.Delivery.{Files, Readings, WorkerResult}
use stream_lite.Delivery.Keeps.{record_manifest-Off, tell_completed-Off}
use stream_lite.Delivery.Keeps.Judged.{Judged, final_of-Judged}
use stream_lite.Delivery.Outcome.{
  Final, final_state_from_outcomes, delivered_outcomes, failed_outcomes,
}
use stream_lite.Delivery.Targets.{Work, Tally, no_tally}
use stream_lite.Delivery.Worker.{finish_job, finalize, deliver_claimed}
use stream_lite.Jobs.{JobState}
use stream_lite.Routing.Delivery.{Target}
use stream_lite.Store.Jobs.{move}
use stream_lite.Store.Model.{Db}
use stream_lite.Store.Told.{Anything}
use stream_lite.Delivery.Keeps.Tallied.{
  arrived, Tallied, no_tally-Tallied, Tallied-as, waved, deliver_targets-Tallied,
}

-- What the answer says of the targets, of which `good` copies arrived.
pub record Settled (max n targets good : ℕ) (answer : WorkerResult) : Type 0 where
  pub arrivals : answer.successful_destination_count ≡ good
  pub total : answer.successful_destination_count + answer.failed_destination_count ≡ targets
  pub state : JobState
  pub told : answer.final_state ≡ some state
  pub judged :
      Judged max n answer.successful_destination_count answer.failed_destination_count state

module _ (files : Files) (max : ℕ) (clock : Readings) (w : Work) (source : Text) where
  finalize-answer :
      (final : Final) (t : Tally) (targets good : ℕ)
      → Tallied targets good t
      → Judged max w.attempt_number
          (length (delivered_outcomes t.destination_outcomes))
          (length (failed_outcomes t.destination_outcomes))
          final.state
      → Yields Anything
          (λ answer _. Settled max w.attempt_number targets good answer)
          (finalize files clock w final t)
  unfolding finalize
  finalize-answer final t targets good h judged =
      Yields-bind {R = λ _. Anything} (finish_job clock.finalized_at w final t) _
        (record { at = λ db p a e. tt })
        (λ _.
          Yields-bind {R = λ _. Anything} _ _
            (waved files w source _ (record_manifest-Off files w _ _ _))
            (λ _.
              Yields-bind {R = λ _. Anything} _ _
                (waved files w source _ (tell_completed-Off _ w final t))
                (λ event. Yields-pure _ (λ _ _. record {
                  arrivals = h.arrivals;
                  total = h.total;
                  state = final.state;
                  told = refl;
                  judged = rw (h.good, h.bad) judged;
                }))))

  -- Where the delivery to the targets of a claimed job returns, its successful count is the number of
  -- targets for which the copy came back as delivered, and its failed count is the number of the
  -- other targets. The job is COMPLETED just where no copy failed, COMPLETED_WITH_DELIVERY_ERRORS
  -- just where some failed and some arrived; and it is put back for a retry only where none arrived
  -- and an attempt is left.
  pub deliver_claimed-Settled :
      (targets : List Target) (db : Db) (answer : WorkerResult)
      → (deliver_claimed files max clock w source targets db).0 ≡ ok answer
      → Settled max w.attempt_number
          (length targets)
          (arrived files w source clock.destination_started_at targets)
          answer
  unfolding deliver_claimed final_state_from_outcomes
  deliver_claimed-Settled targets db answer h =
      let good = arrived files w source clock.destination_started_at targets in
      (Yields-bind {R = λ _. Anything}
          {Q = λ a _. Settled max w.attempt_number (length targets) good a} {P = Anything}
          (move w.job_id _ _ _) _ (record { at = λ db p a e. tt })
          (λ _.
            Yields-bind {R = λ t _. Tallied (0 + length targets) (0 + good) t} _ _
              (deliver_targets-Tallied files w source _ _ targets 0 0 no_tally no_tally-Tallied)
              (λ t.
                Yields-lift-bind
                  (final_state_from_outcomes max w.attempt_number t.destination_outcomes) _
                  (λ final e. record {
                    at = λ db p.
                        (finalize-answer final t (length targets) good
                            (Tallied-as t (omega arith) (omega arith) p)
                            (final_of-Judged max w.attempt_number _ _ final e)).at
                          db tt;
                  })))).at
        db tt answer h
