-- ===== src/Lib.antt =====
-- stream_lite: the durable core of a file ingestion service. A watcher registers files as jobs; a
-- job is validated, processed and delivered; every move of a job is written to its row and to an
-- append-only history; failures are classified, then retried after a delay, by hand or made final;
-- and what other services should know is written to an outbox, from which a dispatcher publishes it.
--
-- The services share one database session. `Store.Model.Db` is that session: the tables they write
-- to, the next UUID and the reading of the repositories' clock. A method is an action of
-- `Base.Exec`: it takes a session to an answer or an exception and to the session as it was left,
-- which an exception does not roll back.
--
-- Parts, with the files of the repository that they model:
--   Base        lists, text, UUIDs, tables with a primary key, and actions, with rules for what an
--               action leads to (Exec/Leads), what it leaves where it returns (Exec/Yields) and what
--               it does not touch (Exec/Off)
--   Jobs        the states of app/db/models.py and the transitions of app/repositories/jobs.py;
--               Graph: paths of moves
--   Store       Model and Rows: the rows of app/db/models.py; Jobs, Retry, Outbox, Claims, Commands,
--               Attempts, Folders: the methods of app/repositories/jobs.py, retry.py, events.py,
--               stage_claims.py, commands.py, of processing.py with delivery.py, and of watchers.py
--               under their names. Audit, Stable, Lives, Freed and Told are what the proofs say of
--               a session: that histories retrace states, what accepted moves keep, what becomes of
--               a job, that leases are given back, and that an answer tells a job's state
--   Events      enqueue_event of app/events/outbox.py with the payload models of
--               app/events/models.py that the modelled services write; Schema: the text types of
--               app/_schema_types.py; Dispatcher: app/events/dispatcher.py
--   Retry       Catalog and Classifier: app/retry/classifier.py; Backoff: app/retry/backoff.py;
--               Scheduler, with Schedule and Due: app/retry/scheduler.py; Manual: app/retry/manual.py,
--               its checks in Failed and Plan, the command in Accept, the locators in Locator
--   Processing  app/processing/engine.py: Worker is process_one with its completions, Batch the loop
--               over the jobs that wait
--   Delivery    app/delivery/service.py: Outcome is the final state, Targets the loop over the
--               destinations, Worker the claimed part of deliver_one, Run the checks before it and
--               the loop over the jobs that wait; Keeps proves what these promise
--   Routing     app/watcher/routing.py: tags and matching; Preview: build_route_preview; Delivery:
--               app/delivery/routing.py; Tags, Agree and Status prove what these promise
--   Paths       app/config/path_policy.py: normalising and displaying; Policy: PathPolicy; Parts and
--               Contained prove what an accepted path is
--   Watcher     app/watcher/stability.py and the snapshots that poll_once of app/watcher/service.py
--               keeps of the files that it finds; Registration: the job of a stable file
--   System      the services together: the steps that they take on the database, one session each
--   Samples     sessions for the tests, which are the modules named Tests
--
-- Conventions. A UUID is a natural number that a counter hands out, so a test that a text is a UUID
-- is left out. A time is the number of its microseconds since the epoch in UTC. A call of a clock is
-- a parameter. A text is the list of its code points. A row that a query returns is a copy: where
-- the source reads a field of a row after it was changed, the model reads the new row. No loop needs
-- fuel: each one runs over a list that a query returned. Of the unique columns, scope and key of
-- idempotency_keys are modelled; those of the attempts and of the history are not.
--
-- Parameters: Python's case mappings outside ASCII (`Casing`), floats with the order laws of IEEE
-- numbers that are not NaN and a power that may overflow (`Floats`), the sampler of the jitter, the
-- resolver of symbolic links, the text of a UUID (`Uuids`), the hash of a request, the adapter that
-- transforms a file (`Adapter`), the copies and the manifests of a delivery with their locators
-- (`Files`), and the broker, which answers for each event with a stream id or an error.
--
-- Not modelled: the HTTP interface, the console, the Spark adapter, the file system layer and the
-- Redis client, which are input and output; log lines; the validation service; of the watcher the
-- file rows, duplicates and events; the schemas of the events that these two write.
pub mod Base
pub mod Jobs
pub mod Samples
pub mod Store
pub mod Events
pub mod Retry
pub mod Routing
pub mod Paths
pub mod Watcher
pub mod Processing
pub mod Delivery
pub mod System
