-- ===== src/Lib.antt =====
-- AutoBot, a workflow orchestration engine: a workflow is a graph of tasks; a run of it is a row for
-- each task; the scheduler queues the tasks whose dependencies have succeeded, workers claim them from
-- a queue, run their handlers and report, and lost tasks are put back on the retry path.
--
-- The parts, and where they are modelled:
--   Dag (app/dag.py): a definition's parsing from JSON (Dag/Parse), its validation (Dag/Validate), the
--     topological order (Dag/Order), the tasks in waves (Dag/Levels), and which tasks can run and whether
--     a run has finished (Dag/Runnable). Dag/Graph says what an order and an acyclic graph are.
--   Models (app/models.py): the rows of the tables as records, the statuses as data types.
--   Retry (app/retry.py, with the settings of app/config.py): the delay before a retry.
--   Scheduler (app/scheduler.py): what a session reads and writes (Scheduler/Session), the functions
--     (Scheduler/Operations), and what a commit does with the outbox (Scheduler/Commit).
--     Scheduler/Written says field by field what rows they are to write.
--     Scheduler/Steps puts the transactions together to a step relation on the tables, and
--     Scheduler/Turns adds the in-process queue: commits, rollbacks, and workers that claim.
--     Scheduler/Potential measures the work that is left, Scheduler/Driven says when no run waits for
--     nothing, Scheduler/Clean when nothing has failed, and Scheduler/Done what a completed run is.
--   Recovery (app/recovery.py): heartbeats and the two sweeps.
--   Broker (app/broker.py): the messages and their JSON (Broker/Codec), the in-process queue and its
--     consuming loop (Broker/Memory), the RabbitMQ broker (Broker/Rabbit, Broker/Rabbit/Receive), and
--     which broker a thread gets (Broker/Pool).
--   Executors (app/executors.py): the registry of handlers; Executors/Handlers the import of modules,
--     and the sample handlers (examples/handlers.py).
--   Worker (app/worker.py): what a worker does with a delivery, the logs that it keeps, and its
--     consuming of the in-process queue (Worker/Run).
--   Cron (app/cron.py): the jobs of scheduled workflows, over APScheduler as a parameter.
--   Api (app/main.py, app/schemas.py): the endpoints that read the tables (Api) and those that change
--     them (Api/Requests), the graph (Api/Graph) and the WebSocket (Api/Socket). An endpoint calls
--     the functions of Scheduler in one transaction. Api/Closed and Api/Completed put a trigger and a
--     worker together.
--   Prelude: dictionaries, sorting, integers, list lemmas. Examples: the theorems on concrete tables.
--
-- How the code is rendered. A function that writes to the database takes a `Session`, the rows of all
-- tables with the outbox, and returns the session after it; an exception is `raise` with its fault. A
-- caller's object is an argument of its own: what a function writes goes to the row with the object's
-- id. Identifiers (UUIDs in the code) are numbers, and fresh ones are arguments; times and delays are
-- whole microseconds, jitter is in thousandths, and a transaction reads the clock once (`Env.now`).
-- The database's order of names, the jitter's generator, `json`, the calls of pika, the handlers and the times
-- are parameters. Error texts are data with the parts that the code formats.
--
-- Fuel. The loop of the topological order takes twice the number of tasks as fuel, since each name
-- enters the queue at most once at the start and once later; the consuming loop takes twice a rank of
-- the world and two; the rank is the messages in the queue and what each task can still cost, a
-- message for each attempt that is left. The loop of the WebSocket takes one for each round.
--
-- Not modelled: the ORM's identity map and the database's locks and isolation (a transaction is one
-- step), the internals of SQLAlchemy, pika, APScheduler, FastAPI and pydantic, threads and signals,
-- app/db.py, the dashboard's page, and the scripts.
mod Prelude
pub mod Models
pub mod Retry
pub mod Broker
pub mod Dag
pub mod Scheduler
pub mod Recovery
pub mod Executors
pub mod Worker
pub mod Cron
pub mod Api
mod Examples
