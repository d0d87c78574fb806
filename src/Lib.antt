-- ===== src/Lib.antt =====
-- INTEGRADO WEB XD synchronises the sales of many tenants, one `empresa_id` each, from their shops
-- to a server. A shop also takes orders on a local agent.
--
-- How the parts work together. A scheduler and the routes put jobs of synchronisation into a queue.
-- The worker drains it: it selects due jobs with a limit for each tenant, leases them, and runs
-- each in a thread, which fetches sales from the tenant's source, upserts them into the table of
-- sales, delivers them to destinations, and marks the job as done, as waiting for a retry, or as a
-- dead letter. It counts what it does. A shop's agent also sends its changed sales over HTTP, which the
-- reception checks and upserts, under the key that the administration provisioned or that a device got
-- for a pairing code. A local client registers with such a key, and fetches the commands that the
-- administration queues for it. A limiter counts the calls of a minute. In a shop the agent keeps the
-- orders in SQLite: items, payments, discounts, voids, transfers and operators, with an outbox for the
-- ERP, and writes each order into the tables of the ERP.
--
-- Files and the code they model:
--   Prelude        Boolean tests, lists, counting, sorting, and texts
--   Jobs           backend/repositories/tenant_sync_job_repository.py, models/tenant_sync_job.py: the
--                  writes to a job
--   Jobs/Retry     backend/services/tenant_job_service.py: retry_job
--   Jobs/Lifecycle the states that those writes reach, as a step relation
--   Jobs/Select    list_pending_with_backpressure: the buckets of the tenants and the round robin;
--                  below it the lemmas on a visit, the buckets, the kept order, the rounds
--   Sales          backend/repositories/venda_repository.py, models/venda.py: bulk_upsert in its three
--                  dialects, its helpers _deduplicate_by_uuid and _chunked
--   Sales/Archive  the same: retain_recent_data and the history of sales
--   Metrics        backend/utils/metrics.py: the counters that the synchronisation writes
--   Worker         backend/services/tenant_sync_worker.py: _process_job, _classify_failure,
--                  _retry_policy, _mark_dead_letter, drain_pending_jobs
--   Worker/Failures the classes of failures, the retry policies and the backoff
--   Scheduler      backend/services/tenant_sync_scheduler.py: the run of a timer
--   Scheduler/Timers the same: sync_all_jobs, over an interface to the scheduler of APScheduler
--   Configs        backend/services/tenant_config_service.py, tenant_config_repository.py,
--                  connectors/registry.py: the sources and destinations of the tenants
--   Ingestion      backend/services/sync_service.py, schemas/sync.py: the reception of a batch
--   Access         backend/repositories/tenant_repository.py, tenant_agent_credential_repository.py,
--                  services/admin_service.py, services/tenant_service.py, utils/security.py: the keys
--   Access/Pairing backend/services/tenant_pairing_service.py, tenant_pairing_repository.py
--   Clients        backend/repositories/local_client_*.py, models/local_client*.py
--   Clients/Service backend/services/local_client_service.py, api/client_deps.py
--   Clients/Requests backend/api/routes/remote_clients.py: the requests that write, and sequences of them
--   RateLimit      backend/utils/rate_limit.py
--   Http           a value or an HTTPException, as the services answer
--   Agent          agent_local/sync/sync_runner.py, sync/checkpoint_store.py, and the query and the
--                  fields of db/mariadb_client.py and db/xd_sales_mapper.py
--   Erp            agent_local/db/xd_open_orders_writer.py; its numbers in Erp/Numbers
--   Erp/Push       agent_local/local_api.py: _sync_order_to_xd, with get_xd_sync and save_xd_sync
--   Orders         agent_local/orders/repository.py and schemas.py: the reads and checks that the
--                  methods share, on the tables of Orders/Tables
--   Orders/Money   the decimals of the orders
--   Orders/Editing create, add_item, clear_items, update_item, remove_item, close_order, cancel_order
--   Orders/Accounts record_partial_payment, apply_discount, void_order_or_item, transfer_order,
--                  order_financial_summary, mark_order_synced
--   Orders/Editing/Payments, Orders/Accounts/Payloads  payments of a closing, requests of an account
--   Orders/Operators authenticate_operator and get_session
--   Orders/Requests the calls as values, and sequences of them
-- The other files hold proofs, named for what they are about; the files Tests hold runs on small
-- inputs and the theorems applied to them.
--
-- How the model reads the code:
--   * A table is the list of its rows in the order of their ids; a method is a function of the tables.
--     What the database gives for ORDER BY on the queue is a parameter.
--   * A time is a number of microseconds, and a method reads the clock once.
--   * An amount is in cents, with quantities in thousandths and unit prices in ten-thousandths, which
--     the schemas bound; the products are rounded half to even, as Decimal rounds. SQLite sums
--     amounts as floating-point numbers; their sum is taken to be exact, as it is after rounding to
--     cents while the error stays below half a cent.
--     In the tables of the ERP amounts are in millionths, rounded half up as its writer rounds.
--   * Exceptions are values beside the tables, since what was committed before them stays.
--   * What a run of the worker meets outside (connector, destination, failures of the database) is a
--     record given to the run. A thread's run is one step, on the rows as they stand then; the runs
--     follow the order of their writes. Password checks, SHA-256 and random tokens are parameters.
--   * Texts that the code looks into are lists of ASCII codes, and JSON is the text that is stored.
--   * The agent and the server are composed as functions: a batch is handed to the reception, whose
--     answer may be lost on the way back.
--   * The round robin has as fuel one more than the limit of the selection, since every round that
--     goes on takes a job; the other loops follow their lists.
--
-- Not modelled: the other services around the queue, the
-- agent's loop, status reports and pairing, the other HTTP routes, pages and printing, connectors and
-- drivers, the administration panel, migrations, and the copies of earlier releases. Of these some
-- are input and output or reads for display, and the others stand beside the parts above.
pub mod Prelude
pub mod Jobs
pub mod Sales
pub mod Metrics
pub mod Worker
pub mod Orders
pub mod Scheduler
pub mod Ingestion
pub mod RateLimit
pub mod Http
pub mod Access
pub mod Clients
pub mod Agent
pub mod Erp
pub mod Configs
