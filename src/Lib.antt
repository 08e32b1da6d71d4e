-- ===== src/Lib.antt =====
-- gophercast: a media pipeline and its delivery.
--
-- The program and how its parts interact. The orchestrator (internal/engine) keeps workflows and their
-- tasks in two PostgreSQL tables; in-process runners and the resident worker (internal/worker) lease tasks
-- through conditional updates and complete them together with their writes to the domain tables. Access
-- control lists (internal/acl) are stored per event and series; publishing pins them, and delivery
-- (internal/serve) decides on the pins alone and streams objects by reference. The collector (internal/gc)
-- deletes objects that the reference tables no longer name. The mediapackage tables (internal/mediapackage)
-- hold what is known of an event; every write to them refreshes, in the same transaction, the rows that
-- search lists from (internal/search). Each package's tables are made and changed by
-- a plan of steps that internal/schemastep runs once, under a lock, with a ledger. Who a request comes from
-- is resolved by internal/authn, with the roles of a launch (internal/lti) in a signed cookie (internal/jose), or by tokens of one
-- issuer (internal/oidcauth). Workflows are created from definitions that are written as files and executed
-- from a table (internal/definitions).
--
-- Which file models which code.
--   Prelude        numbers, texts, lists, results, and Go's signed integers (Prelude/Int).
--   Prelude/Table, Prelude/Derived: tables as lists of keyed rows, and tables that follow from others.
--   Prelude/Ordered  the order, the limit and the greatest of texts by a collation.
--   Text           texts as code points, and what the code uses of Go's strings and strconv.
--   Engine/Store   internal/engine/schema.sql: rows of workflow and task, the guard trigger, and the monad
--                  of calls on the database. Engine/Class: class.go. Engine/Client: GetTask, GetSpec,
--                  StartTask, RenewLease, CompleteTask, FailTask of engine.go. Engine/Statements: New and the
--                  statements of reap, advance, assign and CreateWorkflow. Engine/Orchestrator: reap, advance,
--                  assign, provision, failUnrunnable, Step. Engine/Lifecycle: ExecuteTask and
--                  InlineRunner.Provision of inline.go. Engine/Run: the step relation of all sessions. The
--                  other files of Engine are proofs about these.
--   Acl/Policy     internal/acl/acl.go and schema.sql: SetTx, Get, Evaluate.
--   Serve/Authz    internal/serve/authz.go. Serve/Range: parseRange of serve.go. Serve/Element:
--                  serveElement and ifNoneMatchHits. Serve/Listing: servePublications.
--   Gc/Sweep       internal/gc/gc.go: markSet, markExistsSQL, Sweep.
--   Search/Rows, Search/Project  the tables and internal/search/project.go, with the rows of the projection in
--                  Search/Project/Derive. Search/Query: query.go, with the clauses of what a principal may
--                  see in Search/Query/Clauses. Search/Display: display.go. The other files of Search are proofs about these.
--   Mediapackage/Write  internal/mediapackage/write.go: the writers, on the tables of Search/Rows.
--                  Mediapackage/Metadata: metadata.go. Mediapackage/Materialise: Materialise, PutFile of
--                  internal/cas and the technical metadata. Mediapackage/Manifest: ParseManifest and Load.
--                  Mediapackage/Backfill: the batched step of MigrationSteps. Mediapackage/Runs: any
--                  sequence of calls.
--   Worker/Fanout  internal/worker/fanout.go: the admitter and the loop of RunFanout. Worker/Completions: the
--                  mutations that the operations of internal/ops and internal/worker complete their tasks
--                  with; the rows that reference elements of a publication are in no table. Worker/Inline:
--                  Publish and Snapshot of internal/ops/inline.go.
--   Schemastep/Plan     internal/schemastep: the steps of a plan, and Check of classify.go.
--   Schemastep/Regex, Schemastep/Patterns, Schemastep/Split, Schemastep/Classify  the regular expressions,
--                  SplitStatements and ClassifyStatement of classify.go, and the tables of internal/serveset.
--                  Schemastep/ServeRole: EnsureRole of internal/serveset.
--   Schemastep/Runner   Run, runStep, runTxDDL, runConcurrentIndex and recordStep of schemastep.go.
--   Identity/Roles      internal/lti/roles.go. Identity/Claims, Identity/Hmac, Identity/Jws, Identity/Keys: jose.go,
--                       hmac.go and fetch.go of internal/jose. Identity/Session, Identity/Resolve: internal/authn.
--                       Identity/Oidc: internal/oidcauth. Identity/Passed, Identity/Signed: what the checks
--                       of a token say of its text.
--   Lti/Registry        internal/lti/lti.go. Lti/Store: what a store of single-use values promises, as a record of
--                       operations and one of laws. Lti/Rows: the two stores of store.go, which fill it.
--                       Lti/Login, Lti/Launch: launch.go, the validation over any such store. Lti/Session:
--                       the launch handler with the hook of internal/authn/session.go.
--                       The other files of Identity and Lti are proofs about these.
--   Definitions/Parse, Definitions/Registry, Definitions/Loader  definitions.go, registry.go and loader.go of
--                       internal/definitions.
--   Config/Set, Config/Report  internal/config.
--
-- State and concurrency. A statement is a function on the database, with an error where the database or
-- the code raises one. Before each statement of a call an environment `Env` lets other sessions commit
-- whatever they like, or makes the database unreachable; a transaction takes effect at its commit. Renewals
-- of a lease are those that come due before a body returns. Reachable states are those of an indexed data
-- type of steps, one per statement of some session, in any order. The insert of assignSQL selects on a
-- snapshot that other sessions have left behind by the time it inserts; the other statements run on the
-- table as it is. In Gc the writers
-- appear as the reference tables that each recheck finds; in Worker a step is what the loop does with one
-- candidate or one deferred statement of a slot.
--
-- Numbers and bounds. Ids, times and counts are natural numbers, times in ticks; what Go holds as a signed
-- integer and may be negative is an integer. A range is cut to the size of its
-- element, and parsed numbers beyond 64 bits are errors, as they are in strconv; the ledger of the admitter
-- adds 32-bit columns over as many tasks as there are slots. The dates of a token, and their sums with
-- the skew, are unbounded integers: what Go makes of a date beyond 64 bits is not modelled. The
-- lifetime of a session is a whole number of seconds, not negative. All functions are structural but the loop over
-- the batches of a migration step, which has fuel: one for each full batch of rows, and two more, are enough.
--
-- Parameters. The collation of texts is the order `le` of Acl/Policy. http.ParseTime and the object store's
-- reads are the record `Outside` of Serve/Element. What the database answers to a migration is the record
-- `Outside` of Schemastep/Runner. `Check` is stated over any `Classifier` of Schemastep/Plan, which
-- Schemastep/Checker fills with the code's own. What PostgreSQL computes in a search (sorting, full text,
-- similarity) is the record `Postgres` of Search/Query, and the object store and the inspection of files
-- are the record `Files` of Mediapackage/Materialise, and the file, the XML decoder and the parser of
-- times the record `Reader` of Mediapackage/Manifest. The order of ids in the backfill, and which of its
-- queries fail, are parameters of Mediapackage/Backfill.
-- The id that a publication gets, the JSON of results and the manifest of a snapshot are the record
-- `Helpers` of Worker/Inline.
-- Bodies of tasks, mutations and provisioners are functions, and so are base64, JSON and the HMAC of
-- Identity/Hmac and the RSA verification of Identity/Jws; what key sets and the discovery endpoint answer are
-- fields of the attempts in Identity/Keys and Identity/Oidc. Identity/Resolve takes the validation of bearer
-- tokens as a function. The YAML decoder and the hash are the record `Texts` of Definitions/Parse.
--
-- Simplifications in Search and Mediapackage: the text of a query is ASCII, the column for full text holds
-- the parts that are indexed, updated_at is left out, limits and offsets are natural numbers, the order
-- of aggregated arrays is unspecified, of database errors there are missing rows and violated keys, and
-- temporary files do not fail.
--
-- Not modelled: an error of a commit (a transaction that reaches its commit takes effect, and the caller
-- learns it), errors of the database when Gc writes its candidates, errors of the object store's Exists in
-- PutFile, the created_at columns of workflow and task, JSON encoding, logging, the SQL of migrations, goroutine scheduling
-- beyond the steps above, database errors inside internal/acl, the X-Content-Type-Options header, the
-- quoting of the file name of an attachment, errors in the middle of a body, and the packages that only
-- parse, render or wire requests (internal/adminapi, internal/searchapi, internal/ingest, cmd and others).
pub mod Prelude
pub mod Engine
pub mod Acl
pub mod Text
pub mod Search
pub mod Mediapackage
pub mod Serve
pub mod Gc
pub mod Worker
pub mod Schemastep
pub mod Identity
pub mod Lti
pub mod Definitions
pub mod Config
