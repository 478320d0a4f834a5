-- ===== src/Lib.antt =====
-- A verification library for yzapi, a gateway between API clients and upstream model providers.
--
-- The data plane is internal/gateway. A request is authenticated (principal.go), reserves its body in
-- a memory budget, has its model resolved in a snapshot of the configuration (snapshot.go), is
-- admitted against the monthly quota of its group (quota.go) and the rates of its group and key
-- (ratelimit.go), and takes a slot of the gateway, of its group and of its key (limiter.go, `acquire`
-- in handler.go). Its model is expanded to candidates, and `forward` in
-- handler.go goes from account to account: it asks the health tracker (health.go) whether an account
-- may be used, picks a wire protocol, takes a slot of the account, sends the request, and reports the
-- outcome to the tracker. At the end the attempts are folded into the usage of the request, which the
-- quota and the rate limiter book.
--
-- Files, with the code that each is about:
--   Base, Base/*      shared: Boolean tests, Go's signed integers as an unbounded ℤ, lists, maps as
--                     functions, taking an element out of a list
--   Errors            internal/gateway/errors.go: GatewayError, newErr, the error values
--   RateLimit         ratelimit.go: rateLimiter; RateLimit/Window is rateWindow, RateLimit/Log the
--                     specification by complete logs, RateLimit/Refine and RateLimit/Bound the proofs
--   Limiter/Gate      limiter.go: gate. Its methods are cut where they give up the mutex;
--                     Limiter/Gate/Schedule interleaves callers, signals and broadcasts
--   Limiter/Budget    limiter.go: budget
--   Limiter/Counter   limiter.go: counter and counterMap; Limiter/Counter/Taken on slots that are
--                     taken and freed
--   Slots             handler.go: Gateway.acquire and the function that it returns
--   KeyCache          principal.go: keyCache; KeyCache/Fresh is about lookups that overlap an
--                     invalidation, KeyCache/Size about the bound, KeyCache/Touch is touch, and the
--                     others are lemmas
--   Quota             quota.go: quotaTracker
--   Health            health.go: healthTracker; Health/Persist adds the goroutines of `persist`,
--                     which land in any order; Health/Truncate is `truncate`, over bytes
--   Upstream          snapshot.go: Upstream; upstream.go: mapModel, retryable; handler.go: pickProto;
--                     Upstream/Order is orderUpstreams; Upstream/Retry has the classes of failures
--   Forward           handler.go: Gateway.forward. Forward/Branches has what follows one call,
--                     Forward/Loop the loops, Forward/Keeps the induction that the proofs share
--   Usage             handler.go: usageFromAttempts
--   Snapshot          snapshot.go: Snapshot. Snapshot/Resolve is ResolveDetail, with the proofs in
--                     Resolve/Sound and Resolve/Versions; Snapshot/File and Snapshot/Build are rebuild,
--                     with the proofs in Build/Sorted, Build/Named and Build/Stored
--   Pipeline          handler.go, one request from its headers to its log record: Pipeline/Auth is
--                     authenticate, Pipeline/Prepare is prepare, Pipeline/Route is candidates,
--                     Pipeline/Finish is finish and fail, Pipeline/Handle is handleTextWith,
--                     handleSimple and HandleCustom; Pipeline/Guards, Pipeline/Balanced and
--                     Pipeline/Refusals are proofs
--   FirstContent      firstcontent.go: firstContentWriter; FirstContent/Cut and FirstContent/Loop are
--                     lemmas, FirstContent/Chunks is about streams in pieces
--   BatchWriter       internal/logstore/batchwriter.go: BatchWriter, its callers and its goroutine
--                     interleaved; BatchWriter/Rows, Ended and Kept are proofs
--   Vector            internal/vector/vector.go: Encode and Decode; Vector/Stored is the proof
--   Compliance        internal/compliance. Compliance/Matcher is aho.go, with the trie that the patterns
--                     make in Matcher/Trie, Insert and Outputs, the longest suffixes in Matcher/Pre and
--                     Follow, the links in Matcher/Links, Visit, Roots, Fuel, Queue, Drain and Build, and
--                     `Match` in Matcher/Scan, Parts and Correct. Of compliance.go, Compliance/Check is
--                     check and aggregate, Compliance/Reload is Engine with New, Reload and Loaded,
--                     Compliance/Vectors is BuildVectors; Compliance/Primary, Words, Keywords and
--                     Vectors/Counted are proofs
--   Prices            internal/pricing/pricing.go: Lookup, Cost and Reload; Prices/Found, Filed and Costs
--                     are proofs
--   Restore           internal/backup/backup.go: ApplyPending and asideDir, with the proof in
--                     Restore/Resumed
-- The modules called Tests run the definitions on concrete values.
--
-- Conventions. State is passed explicitly: a method takes the receiver and answers the new one. A map
-- is a function from keys, with `none` for a missing key; a pointer that a map holds is written back
-- with `store`. The clock is an argument, in nanoseconds since the epoch. int and int64 are an
-- unbounded ℤ (or ℕ where a value is never negative), except where the code depends on the width: the
-- sequence numbers of health.go and the generation of the
-- key cache (uint64) and the product of parseRetryAfter (int64) wrap around. A
-- method that holds a mutex from start to end is one step; where a mutex is given up, the parts are
-- separate steps, and the theorems quantify over every sequence of them.
--
-- Parameters. Random numbers, network replies, the answers of the database, the parts of a header
-- that strconv and net/http parse, and the conversions of a request's body are arguments. So are
-- `strings.ToLower`, `strings.TrimSpace` and `strconv.FormatUint`, whether an event of a stream has content, what the parsed body says of the
-- model, the verdict of the content check, the decision of smart routing, and what the relay of an
-- answer leaves behind.
-- Whether the database answers is part of a step of KeyCache. What a failed `CreateInBatches` leaves
-- in the table is an argument in BatchWriter; it is taken to be nothing, as gorm runs the call in one
-- transaction unless SkipDefaultTransaction is set, and internal/db/db.go does not set it.
-- The random numbers are taken to be in the range that `rand.IntN` documents.
--
-- In Compliance and in Prices a float stands for its bits, and the arithmetic on floats, the functions of the package
-- strings and the conversions are the fields of a record `Go`. The order in which Go walks a map is a
-- parameter there and in Snapshot/Build, and so is what the database and the embedding service answer.
--
-- Fuel. `shuffle` and `tiers` of Upstream/Order recurse on fuel, which is the number of accounts: a
-- round of either takes at least one account out. `drain` of FirstContent has the length of the buffer
-- as fuel: a round takes at least two bytes out. `follow`
-- of Compliance/Matcher has the number of nodes: every link leads to a shorter text. `links`, the loop
-- over the queue, has the number of nodes under the root, each of which enters the queue once.
-- `build_batches` has the number of rows. Every other loop is structural.
--
-- Not modelled. Other requests do not run between the visits of one `forward`, and between the steps
-- of one `acquire` after the gate. Writes of health states to the database are taken to succeed, as
-- the code ignores their errors. Metrics, latencies, response headers and JSON output have no model.
-- `finish` leaves out the cost of the attempts and the copy of the bodies for the sink. Of the two
-- calls of `touch`, `prepare` of Pipeline has the subject only; KeyCache/Touch is about the second.
-- In Pipeline one request runs alone, so a wait for memory or at the gate ends with room or with the
-- time being up. Smart routing, the migration of
-- prices, protocol conversion, logs and the control plane
-- under internal/ are outside the library. Pipeline takes the verdict of the content check as given. The
-- check of a request reads one index; a reload beside it replaces the index as a whole. The numbers
-- of nodes and patterns (int32) of the automaton are taken not to overflow. In Restore an operation
-- of the file system that fails ends the run as an interruption does, directories are made as needed, the
-- contents of a directory are one number, and what is left of the staging area after the marker is gone
-- has no model. In BuildVectors
-- the token of a claim and the texts that it compares stand in the answer to each write.
mod Base
pub mod BatchWriter
pub mod Compliance
pub mod Errors
pub mod FirstContent
pub mod Forward
pub mod Health
pub mod KeyCache
pub mod Limiter
pub mod Pipeline
pub mod Prices
pub mod Quota
pub mod RateLimit
pub mod Restore
pub mod Slots
pub mod Snapshot
pub mod Upstream
pub mod Usage
pub mod Vector
