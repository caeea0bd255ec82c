-- ===== src/Lib.antt =====
-- S3-SyncBridge (nestjs-app): files that SFTPGo receives are recorded, queued and uploaded to S3.
--
-- How the parts work together. A webhook reaches the ingestion service, which checks its path and
-- writes a row of `file_transfers` and an outbox event in one transaction. The relay of the outbox
-- adds a job to the queue for every event that is pending and marks the event PUBLISHED. The worker
-- takes a job, runs the pipeline of checks, uploads the file, and makes the row SUCCESS or FAILED;
-- it counts usage, publishes events and queues dead letters. A sweep queues stuck rows again, a
-- purge deletes old ones, and the management operations list, download and retry them within the
-- caller's tenant.
--
-- Which file models which part (paths below nestjs-app/src):
--   World      the state: database tables, queues, objects, metrics and flags as a record, with the
--              entities and job payloads of ingestion/entities, outbox, quota, events, auth/entities
--   Repository ingestion/file-transfer.repository.ts; Table has the statements, on lists of rows
--   Outbox     outbox/outbox.service.ts
--   Paths      `resolve`, `relative`, `isAbsolute` and `extname` of node:path, on POSIX
--   Ingestion  ingestion/ingestion.service.ts, tenancy/tenant.service.ts
--   Quota      quota/quota.service.ts
--   Routing    ingestion/routing.service.ts
--   Clamd      ingestion/pipeline/clamd.client.ts
--   Pipeline   the other files of ingestion/pipeline
--   Storage    storage/storage.service.ts
--   Events     events/*.service.ts, events/webhook-delivery.processor.ts, kafka/kafka-producer.service.ts
--   Processor  ingestion/ingestion.processor.ts, metrics/metrics.service.ts
--              ingestion/dead-letter.processor.ts, notifications/notification.service.ts
--   Crypto     crypto/crypto.service.ts, with the cipher of node:crypto as a parameter; Service has
--              its constructor and its keys, Base64 the texts of buffers
--   Sweepers   ingestion/recovery.service.ts, ingestion/retention.service.ts
--   Transfers  ingestion/transfers.service.ts, database/migrations/1720300000000-AddTenancyRls.ts
--   Auth       auth/auth.service.ts, auth/guards/roles.guard.ts,
--              ingestion/guards/webhook-auth.guard.ts
--   Schema     database/migrations, and the columns, enums and indexes of the *.entity.ts
--   Config     config/env.validation.ts, config/configuration.ts, database/data-source.ts
--   Http       the controllers, common/filters/all-exceptions.filter.ts
--   System     the entry points as a step relation, and what every state that it reaches satisfies;
--              Attempts and Delivered follow one transfer's job to its end, Downloads fetches
--              its object, Distinct follows the ids of the rows, and Lifecycle a row that is SUCCESS
-- Functions keep the source's names in snake case. `Samples` and the modules called Tests hold
-- concrete runs.
--
-- Asynchronous code is an action on the state that returns a value, throws, or ends with the death
-- of the process. Every call of a service has a number, and the record `Services` says by that
-- number how the call ends (done, refused, done with the answer lost, or the process dead before or
-- after the service did it) and what it answers; nothing is assumed of it except where a theorem says
-- so. A transaction that does not commit puts the tables back. An entry point runs from its start to its end; steps of different
-- entry points follow one another in any order but do not interleave.
--
-- UUIDs and dates are natural numbers, texts are lists of code points, and the texts of errors are
-- data. Lists stand for tables and queues; a queue keeps every job that was ever added. Recursion
-- is structural but for decimal numerals, whose fuel is one more than the number, for the reader of
-- the scanner's frames, whose fuel exceeds the number of chunks, and for the reader of JSON.
--
-- class-transformer and class-validator are a parameter of the environment's validation, with their
-- documented behaviour as laws. A number that is read from the environment is the decimal fraction
-- that was written, not its nearest double. The numbers of a webhook are doubles where its key is
-- made: Ingestion/Doubles rounds them and writes them as JavaScript does below 10 ^ 21; its fuel is
-- 17 halvings, enough below 2 ^ 70, and 20 powers of ten. Of a job's attempts, what BullMQ does
-- between them is given as a schedule. A text in base64 is read as Node does: up to the first `=`,
-- and other characters are passed over. The JSON reader makes three calls at most between two
-- characters that it reads, and has fuel for three calls a character.
--
-- Of SQL, the migrations' statements are modelled with the errors that they can meet: a name in use,
-- a table, column, type or function that is missing, and a column or type on which something depends.
-- The extension uuid-ossp is made by a script outside nestjs-app, and is a hypothesis.
--
-- Not modelled: the validation of the requests' parameters and the rate limiter, which refuse a
-- request before it changes anything, health checks, tracing, logging, the HTTP signature of webhooks,
-- and the timers that start the sweeps.
pub mod Prelude
pub mod World
pub mod Repository
pub mod Outbox
pub mod Paths
pub mod Ingestion
pub mod Quota
pub mod Routing
pub mod Clamd
pub mod Pipeline
pub mod Storage
pub mod Events
pub mod Processor
pub mod Schema
pub mod Sweepers
pub mod Transfers
pub mod Auth
pub mod Config
pub mod Crypto
pub mod Http
pub mod System
pub mod Samples
