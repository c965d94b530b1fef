-- ===== src/Lib.antt =====
-- ZebraTamer keeps Zebra label printers behind an HTTP API. This library models the parts that
-- decide what is printed, what is remembered over a restart and how labels are counted.
--
-- The parts and their files:
--   Model                    src/model.rs: Model.Job has jobs, their states and events, Model.Media the
--                            loaded media and its ledger, Model.Snapshot what is known of a printer
--   Store                    src/persist.rs: the data directory. Store.Files has the JSON and NDJSON
--                            files, Store.Jobs the job files and the searches over them,
--                            Store.Printers the files of a printer and the event log, Store.Recovery
--                            the pass over the job files at a start, Store.Paging the pages of
--                            the event log and of the job index, Store.Atomic the steps of one write,
--                            which Store.Refines relates to the outcomes below
--   Media                    src/media.rs, and the bookings that src/worker.rs makes: Media.Validate,
--                            Media.Accounting (arithmetic and ledger events), Media.Operations (load,
--                            edit, unload, adjust); proofs in Media.Conservation, Media.Ledger and
--                            Media.Errors
--   Worker                   src/worker.rs: the thread of one printer. Worker.Machine has the transport
--                            as the worker sees it, Worker.Delivery the loop over the attempts,
--                            Worker.Process `process_job`, Worker.Queue the loop of `run` with its
--                            commands; proofs in Worker.Retry, Verdict, Commands and Drain
--   Auth                     src/webui.rs: bearer tokens and scopes; proofs in Auth.Scopes
--   Api                      src/api.rs: the handlers of the second API. Api.Agent has what they work on
--                            and the commands to the workers, Api.Payload the file of a payload,
--                            Api.Create the creation of a job, Api.Control look-up, pause and
--                            cancellation, Api.Admin the saving of a printer, Api the job list; proofs
--                            in Api.Known (a known idempotency key), Keeps, Steps and Limit (the limit
--                            on active jobs), Entered and Retry (a request sent again), Cancel, Saved
--                            and Pages
--   Protocol                 src/protocol_v2.rs: a submitted job becomes bytes for the printer; proofs in
--                            Protocol.Prepared and Protocol.Copies (the search for ^PQ)
--   Device                   src/device.rs: device settings and their ZPL. Device.Fields and Device.Report
--                            read a printer's report, Device.Saving saves with read-back; proofs in
--                            Device.Confirmed and Device.Verified
--   Transport                src/transport.rs: sending a payload and querying over a socket, a bulk
--                            endpoint and a character device; Transport.Query has the queries, proofs in
--                            Transport.Sending and Transport.Replies
--   Legacy                   src/api.rs: the first API. Legacy.Upload takes the body of a request to its
--                            file, Legacy.Create is `create_job`, Legacy.ParsePq its search for the
--                            number of labels, Legacy.Media the requests about media; proofs in
--                            Legacy.Goes, Received, Still, Enqueued and Registered (steps), Settled and Answered
--                            (the ends of a request), Numbers (`parse_pq`), Elsewhere and Requests (media)
--   Probe                    src/worker.rs: the queries to a printer. Probe.Run is `probe`, Probe.Known
--                            what it reads out of the replies; proofs in Probe.Asked and Probe.Stats
--   Metrics, Hash            src/metrics.rs and src/hash.rs: the page of metrics and the text of a
--                            digest; proofs in Metrics.Escape and Metrics.Lines
--   Boot                     src/main.rs: the accounting of a restart of the host; proofs in Boot.Once
--   Driver                   src/driver.rs: raster pages as ZPL, and the choice by content type; proofs
--                            in Driver.Raster, Driver.Accepts and Driver.Payload
--   Config                   src/config.rs: validation of a configuration, over the settings that it
--                            reads; proofs in Config.Valid. Config.Identity has `ensure_agent_id`
--   Tests                    the models on concrete inputs
--
-- How they interact: a worker owns its queue in memory and reads and writes the files of its printer
-- and of its jobs through the store. The HTTP handlers reach it only by commands (Worker.Queue), so
-- one command or one job at a time changes its state. The media operations run as a control command
-- of the same worker, and `process_job` books the labels of an accepted job.
--
-- The store is a typed view of the directory: a JSON file is absent, unreadable or holds a value, an
-- NDJSON file is a list of lines, each a value or text that does not parse. Each write consumes one
-- outcome of a script (`outcomes`): it succeeds, is refused with nothing changed, fails after a part
-- or the whole of an appended line was written, or reports an error after it took effect. When the
-- script is used up writes succeed. A function that may fail returns its result beside the state,
-- since what was written before an error stays written; `let _ =` in the source is `attempt`.
--
-- The printer's side is an oracle: how each open of the transport and each write of a payload goes.
-- The clock is an argument, and one pass of a function sees one time. The SHA-256 of a media
-- revision, the JSON text of an event's data, the JSON reader of a raster page and the base64 decoder
-- are parameters. Ids are numbers, compared as the
-- source compares them; a `u64` saturates or wraps as the source says it does, where overflow is not
-- handled it wraps, as in a release build. The attempts of a delivery are the three of the source and
-- are a count that the recursion consumes; the rounds of a queue are as many as it has entries, and
-- that this is enough is a theorem. Doubles are exact multiples of the least subnormal.
--
-- Under the API, `v2_create_job` stores the job through the store, and hands it to the worker of the
-- printer by a command, which may find the channel full or the thread stopped (`mail`). One request is
-- handled at a time. The transports of Transport stand below the oracle of Worker.Machine: a script
-- says what each write, read and connect of the device gives.
--
-- `create_job` of the first API takes the body as a list of pieces and keeps what it has received beside
-- the store, which only says whether a payload's file is there; a read of that file gives back what was
-- written. A probe works on the snapshot of its printer and on a script of replies, beside the worker.
--
-- Not modelled: the requests of the first API that only read or that reach the device's configuration,
-- maintenance commands, token files, the routing, mDNS, the browser's assets, the
-- opening of transports, the content of the payload files in the store, the pauses between attempts,
-- and, in the worker of Worker.Machine, the entries of the snapshot other than its job summary.
pub mod Prelude
pub mod Model
pub mod Store
pub mod Media
pub mod Worker
pub mod Device
pub mod Transport
pub mod Auth
pub mod Api
pub mod Legacy
pub mod Probe
pub mod Metrics
pub mod Hash
pub mod Boot
pub mod Driver
pub mod Protocol
pub mod Config
pub mod Tests
