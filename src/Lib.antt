-- ===== src/Lib.antt =====
-- Verification library of the zip extraction service (services/zip-extraction).
--
-- The service receives a message on an archive, downloads the archive, checks it against rules for
-- zip bombs, uploads each entry to the staging bucket, records a row of each entry in DynamoDB, and
-- writes one slipsheet on the archive. Paths below are in services/zip-extraction/internal.
--
--   Common         helpers: Boolean tests, lists over native numbers, int64 with wrap-around (Int)
--   Go             Go's strings as bytes, fmt, strconv, net/url, path/filepath, UTF-8, io, sort;
--                  floats are 64 bits with the operations as a parameter
--   Config         config/config.go: the records, Validate in Config.Validate, Load in Config.Load
--   Extraction     extraction: errors.go, types.go, describe.go, zip_open.go, and service.go in
--                  Service: Entry is processEntry, Process is Process with its deferred function
--   Validation     validation/validator.go: Sanitize
--   BombDefence    bombdefence: PreCheck, EntryCheck, OverlapCheck, and the limited reader
--   Retry          retry/retry.go: Classify, AsTransient, BackoffFor, Do
--   Storage        storage/adapter.go: Upload and Download, and storage/mime.go
--   Metrics        metrics/metrics.go: the label of a rule; the collectors and the methods
--   Slipsheet      slipsheet/slipsheet.go: Build, Marshal, Unmarshal and Write
--   DynamoDb       dynamodb/adapter.go: Marshal, Unmarshal, RecordEntry; the table in Table
--   Log            log/logger.go: the filter of sensitive fields, the logger, New
--   Classification classification/classification.go: New and Classify, and classifierAdapter of
--                  cmd/zip-extraction/main.go
--   Sqs            sqs/adapter.go: parseMessage; dispatch with its heartbeat in Worker, Run in Loop
--   Health         health/server.go: the readiness gate, the routes, Start
--   App            app/app.go: Run, and the handler over Process
--   AwsClients     awsclients/awsclients.go: Build
--   Main           cmd/zip-extraction/main.go: the service's ports over the adapters, and run; what
--                  the adapters and the service do together in BombUpload, Document and Table; the
--                  handler of SIGUSR1 in HeapDump
--
-- A message goes from Sqs.Loop to a Sqs.Worker, which calls App.handle_message, which calls
-- Extraction.Service.Process. An error is a value of one data type, whose constructors are the typed
-- errors of errors.go, the wrapping by fmt.Errorf, and errors of other packages by what errors.As
-- answers on them. The service is a state monad: its state is everything outside, and the list of its
-- calls of the uploader, the recorder, the slipsheet writer and the metrics. The ports to the outside
-- are the fields of a record and may answer anything, in any state; the checker, the validator and
-- the retrier are the definitions of this library, with the configuration that main.go gives them.
-- The reader of an entry is a state with a read function; the limited reader and the rebuilt reader
-- are such readers over it.
--
-- What holds when an archive ends is shown by an invariant of the loop over its entries
-- (Process.Induction), of which the slipsheet, the counted failures, the calls and the table are
-- instances; what a call leaves as it is, by a relation of the worlds before and after it that each port
-- is in (Service.Relations); what an uploaded entry has gone through, by Entry.Success.
--
-- Goroutines: the receive loop and its workers, and a worker and its heartbeat, are step relations
-- whose steps interleave in any order. A pause, a ticker and a deadline may end at any time. The
-- handler is one step of the worker, since the heartbeat shares nothing with it, and the loop sees of
-- a worker only the slot that it holds. What the SQS API answers is any value of a relation
-- `Answers`, which says whether the context has been cancelled.
--
-- Loops: the retry loop and the loop over the entries recurse on the attempts and on the files.
-- io.ReadFull recurses on the number of its reads, which is the length of the buffer: as each read
-- gives a byte or an error, more are not made. Numbers of type int64 wrap around; instants are
-- nanoseconds, and the difference of two is not bounded.
--
-- Not modelled: panics but those of the handler, log lines, Close, JSON and YAML, the AWS, HTTP,
-- Prometheus and zap libraries.
pub mod Common
pub mod Go
pub mod Config
pub mod Extraction
pub mod Validation
pub mod BombDefence
pub mod Retry
pub mod Storage
pub mod Metrics
pub mod Slipsheet
pub mod DynamoDb
pub mod Log
pub mod Classification
pub mod Sqs
pub mod Health
pub mod App
pub mod AwsClients
pub mod Main
