-- ===== src/Lib.antt =====
-- The campaign orchestrator: it doses the messages of campaigns to sender accounts, within daily
-- limits and a work window, and follows every target through the results of the workers.
--
-- The parts, with the files of the repository and the modules that model them:
-- - internal/domain: Domain/Errors (errors.go: ClassifyErrorCode, IsSessionHealthError),
--   Domain/Phone (phone.go: NormalizePhone, ParseAdminPhones), Domain/Status and Domain/Models
--   (models.go: the statuses and the entities) and Domain/Json (models.go: UnmarshalJSON).
-- - internal/config/config.go: Config (the work window, intervals and delays),
--   Config/Unsubscribe (the replies that unsubscribe) and Config/Environment (LoadFromEnv,
--   loadLocation).
-- - internal/repository: Repository/Store is the database as a record of tables, with a row type
--   per table; a transaction is a function from a database to a result and a database. A call
--   takes the faults of its statements as an argument `f`: `f n` says that the n-th statement
--   fails, and then the transaction leaves the tables as they were. Repository/Targets
--   (postgres.go: UpdateTargetStatus), Repository/Replies (postgres.go: RegisterReply and the
--   blocklist), Repository/Campaigns (postgres.go: start, stop, lists), Repository/Uploads
--   (postgres.go and anti_ban.go: CreateCampaign, GetCampaign, ListCampaigns, UpdateCampaign,
--   GetCampaignTargets, CountMappedPhones), Repository/Mappings (postgres.go: chats),
--   Repository/Dosing (anti_ban.go: AssignAccountAndEnqueueTarget,
--   ListAssignableTenantAccounts), Repository/Pending (anti_ban.go: getNextPendingTarget),
--   Repository/Quota (anti_ban.go: the daily quotas), Repository/Retry (anti_ban.go:
--   ApplyRetryableFailure and its companions), Repository/Attempts (all of these calls in any
--   order), Repository/Lifecycle (what they make of one target) and Repository/Queries (the
--   tenants of a tick, and the calls that no worker makes).
-- - internal/worker: Worker/Doser (campaign_doser.go: CampaignDoser, with Worker/Accounts for
--   pickAccount and Worker/Schedule for scheduleTarget; its tick for a tenant calls
--   Repository/Dosing, Repository/Pending, Repository/Quota and Repository/Retry), Worker/Outbox
--   (outbox.go: processMessages and Run, with Worker/Outbox/Broker for NewOutboxWorker and
--   ensureAccountQueue), Worker/Consumer (result_consumer.go: flush, with Worker/Consumer/Notify
--   for the notifications of the admins and Worker/Consumer/Loop for Run and flushLoop, which
--   calls Repository/Mappings, Repository/Replies, Repository/Retry and Repository/Targets),
--   Worker/Poller (poller.go), Worker/Running (the flag isRunning), Worker/Scheduler
--   (scheduler.go: checkAndStartCampaigns), Worker/Cache (internal/blocklist/cache.go),
--   Worker/System (the doser, the consumer, the scheduler, the uploads and the webhooks on one
--   database) and Worker/Limits (their calls as steps of Repository/Attempts).
-- - internal/usecase/campaign.go: Usecase/Callback (UpdateTargetStatusWithCode), Usecase/Upload
--   (UploadCampaign, over the tables and the files, with Repository/Uploads) and Usecase/Report
--   (GenerateExcel, over an interface of the workbook, Excel, whose laws are
--   Usecase/Report/Cells).
-- - internal/transport: Transport/Campaigns, Transport/Download and Transport/Webhooks (http.go:
--   the handlers, which call the use cases) and Transport/Hub (websocket.go: the connections and
--   what is sent to them).
-- - internal/storage/s3.go: Storage (NewS3Store, Put), which Usecase/Upload takes as an
--   argument.
-- - internal/logging/logging.go: Logging (Fields, WithFields, MaskPhone, RedactURL) and
--   Logging/Sink (Write, emit, Init, Close and the structured events).
-- - cmd/orchestrator/main.go: Program (deriveHost, the configuration of the attachment store,
--   the warnings about tenants, the routes).
--
-- Common holds the tests, lists, rows and texts that they share, Examples the concrete runs.
--
-- Numbers are natural numbers: a time is a count of nanoseconds, a uuid its 128-bit number, a
-- text the list of its characters, and counters are unbounded. Every function is structural
-- recursion over a list or a number; only the loop of the poller over chunks has fuel, the
-- number of targets. The clock, random numbers, uuids, the JSON encoder, the spintax package,
-- the time zone database, the rows that other transactions lock, the order of replies (a query
-- without ORDER BY), the rows that arrive in the outbox between two ticks, the file system,
-- excelize, the attachment store of an upload and the decoders of requests are parameters.
--
-- Not modelled: the connections to the database and the broker, the running of migrations,
-- signals and shutdown, the reading of sockets, the fields of the log lines of single messages,
-- and the tickers, which repeat a modelled call. The goroutines of an upload and of a check
-- stand in the order in which they are started; those of the result consumer take turns in any
-- order (Worker/Consumer/Loop), as do the callers of a guarded run (Worker/Running).
pub mod Common
pub mod Domain
pub mod Config
pub mod Repository
pub mod Logging
pub mod Worker
pub mod Transport
pub mod Storage
pub mod Usecase
pub mod Program
pub mod Examples
