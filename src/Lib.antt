-- ===== src/Lib.antt =====
-- slackbot-hubspot: a bot that links Slack threads to HubSpot tickets, and keeps a note with the
-- transcript of each thread up to date.
--
-- Slack reports events to the HTTP front end (internal/httpapi), which authenticates and parses
-- them and hands them to the store (internal/store). `Record` deduplicates an event, changes the
-- state of its thread, and puts a confirmation into an outbox, all in one transaction. Workers
-- (internal/worker) claim threads, outbox records and file copies under leases that expire, call
-- Slack and HubSpot, and then complete or fail what they claimed. All coordination between workers
-- is in the store, which is modelled in full; of the others, the parts that decide are.
--
-- Base: shared names, Boolean tests and lists over the native numbers; of Go's packages:
-- Base.Bytes, texts as bytes; Texts, texts as characters; Sorting, Urls, Html and Dates.
-- Domain: internal/domain/domain.go, the records that the parts exchange.
-- Backend: internal/store/backend and internal/store/sqlite, a table of records ordered by key, and
-- the transaction (`commit`), which keeps the writes of a callback exactly if it succeeds.
-- Store: internal/store. Each operation takes the store (`Database.Db`, one table for each prefix
-- of keys) and returns its answer with the store that it leaves.
--   Keys: the encoded keys of records.go (`component`, `threadKey`, `uploadKey`). A row of a table is found
--     by the texts that its key is made of, and the rows are ordered by the encoded key.
--   Timestamps, Summaries: `newer` and `boundedError` of records.go.
--   Database: `clearLease`, `validate`, `validateNotification`, `validateUpload`, `read`, `write`.
--   Records: `Get` and `Record`; its switch is Records.Decisions.decide.
--   Outbox: `queueReactions` of notifications.go.
--   Work: work.go (`Claim`, `Validate`, `Renew`, `SaveNote`, `Complete`, `Fail`, `Counts`).
--   Notifications: notifications.go. Uploads: uploads.go.
--   Rendering: what the store asks of internal/render, as a parameter.
--   Threads: what holds of every stored thread, and how each operation may change one.
--   System: any sequence of the writing operations, by any number of workers, with the leases that
--     were handed out (`World`, `Request`, `perform`, `Reach`).
-- Registry: `Register` and `Open` of internal/store/store.go, and the tests of
-- internal/store/backend/backend.go.
-- Worker: internal/worker. Policy: `retryAt`, `retryable`, `safeError`, `failure`. Delivery:
-- `deliver`, `finishNotification`, and the end of `process`. Reactions: `reconcileReactions`, a
-- recursion over the rounds of its loop, each with what the store and Slack answered in it.
-- Delivery.Jobs: `deliverReactions`. Attachments: `attachment` and `copyFile`. Copying: the loop of
-- `reconcile` over the files; Reconciling: `reconcile`.
-- Render: internal/render. Tokens, Parsing: `Parse`. Summary: `CompileSummary` and the methods of
-- `Summary`. Blocks: `Help` and `boundedBlocks`. Status: `Status`.
-- Transcript: `Transcript`, with Markup: `slackHTML` and `mrkdwn`.
-- Slack: internal/slack/client.go. Calls: `call`, `responseError`, `React`, `RemoveReaction`,
-- `File`.
-- Pages: the pages of `Thread`.
-- Hubspot: internal/hubspot/client.go. Calls: `request`. Notes: `FindNote`, `CreateNote`,
-- `UpdateNote`. Tickets: `Ticket`.
-- Config: the checks of `Load` in internal/config/config.go.
-- Front: internal/httpapi/server.go. Events: the envelopes of Slack and the checks of `SlackEvent`;
-- Handler: the event that is recorded, and the response. Authentication: `authenticateSlack`.
-- Tests: sample data, and each result at a concrete input.
--
-- Numbers. A `time.Time` is a number of nanoseconds, and the zero time is 0. A `time.Duration` is a
-- signed integer. Counters (attempts, generations, revisions) are unbounded here; in the program
-- they have 64 bits, and each operation adds at most 1 to one, so that 2^63 operations would be
-- needed to leave the range. No operation of the store needs fuel: its loops run over the rows of a
-- table. The loop of `CompileSummary` has as many turns as the template has characters, of which
-- each turn takes two at least, and those of `slackHTML` and `mrkdwn` as many as the text has
-- bytes. The loops over the pages of a thread and of the notes of a ticket have a number of turns
-- as an argument, since the program's end only as the answers do.
--
-- Tokens that `rand.Text` draws are arguments. That a lease's token is new and not empty is a
-- condition of the step relation (`System.Admissible`), and so is that a worker names only leases
-- that it was given.
--
-- Not modelled: faults of the database and of JSON decoding, which make an operation fail without
-- an effect; `big.Rat` beyond plain decimals; the drivers for PostgreSQL and Spanner, generated
-- code, telemetry, the commands, the worker's `Run` and its heartbeats, the reading of settings,
-- and the rest of the clients of Slack and HubSpot. What the store, the front end and the worker
-- ask of internal/render are arguments of theirs (`Rendering`, `Rules`, `Renders`). `SlackEvent`
-- reads the thread and records the event in two transactions, which are one step here. What
-- `url.Parse`, `html.UnescapeString` and `strconv.ParseInt` answer are arguments.
mod Base
pub mod Domain
pub mod Backend
pub mod Store
pub mod Registry
pub mod Render
pub mod Slack
pub mod Hubspot
pub mod Config
pub mod Worker
pub mod Front
mod Tests
