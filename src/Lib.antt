-- ===== src/Lib.antt =====
-- XCS Protocol: the parts of the program that decide, as functions, and what makes them correct.
--
-- The program. packages/core is the protocol library: it reads schemas, claims and network profiles
-- out of JSON, resolves a schema's inheritance and names a credential's state. apps/indexer reads
-- validated ledgers in order, finds schema registrations and credential changes in them and stores
-- them in PostgreSQL (db/schema); a lease per profile, fenced by an epoch, lets one writer at a time
-- store. Its worker asks two sources for every ledger. packages/sdk builds, signs and submits
-- transactions, packages/cli is its command line, apps/web shows and serves the tables. The
-- applications carry copies of packages/core, which the indexer calls as apps/indexer/src/lib/xcs.
--
-- The files.
--   Common: helpers (tests on numbers, lists, texts of UTF-16 code units, results of code that may
--     throw, and the rules for what a run ensures). Common/Actions has code with a state that may throw:
--     the state comes back after a throw too.
--   Core/Errors: packages/core/src/errors.ts. `Checked` is a result, `fail` throws; the message and
--     the path of an XcsError are left out.
--   Core/Json: packages/core/src/json.ts (`assertWellFormed`, `assertJsonValue`, UTF-8 lengths).
--     Core/Json/WellFormed, Core/Json/Plain and Core/Json/Utf8 prove about it.
--   Core/Schema: packages/core/src/schema.ts (`parseSchema` and all it calls). Core/Schema/Valid says
--     what a valid schema is, Sound and RoundTrip prove about it.
--   Core/Claims: packages/core/src/claims.ts (`parseClaims`). Its children are Numerals and Signed for
--     the 256-bit numbers, Conforms and Order for the claims.
--   Core/Lifecycle: packages/core/src/lifecycle.ts. Core/Lifecycle/States proves about it.
--   Core/Resolution: packages/core/src/schema-resolution.ts (`resolveSchema`), with Fields, Lineage
--     and Complete.
--   Core/Network: packages/core/src/network.ts (`parseNetworkProfile`), with Profiles.
--   Core/Documents: the documents of packages/core/src/json.ts (`parseJson`, `canonicalJson`) and
--     packages/core/src/schema-uid.ts, with Keys.
--   Core/Libraries: what the code calls of other packages, as a record of functions.
--   Indexer/Types: apps/indexer/src/types.ts.
--   Indexer/Continuity: apps/indexer/src/continuity.ts, with Chains.
--   Indexer/Status: the row of the table indexer_status, its CHECK constraints (db/schema/indexer.ts)
--     and `normalizeStatus`; Indexer/Status/Checks proves about it.
--   Indexer/Fencing: the leases' operations, apps/indexer/src/lib/db/indexer-fencing.ts. Rows has the
--     constraints row by row, Invariant the tables' invariant, Acquire, Steps, Errors and Halt the
--     operations one by one, History all of them as steps, Exclusion the claims of one writer.
--   Indexer/Mutations: apps/indexer/src/credential-mutations.ts, with Sound and Places.
--   Indexer/Registration: apps/indexer/src/registration.ts, with Envelope, Accepted and Utf8.
--   Indexer/Projection: apps/indexer/src/project-ledger.ts, with Known.
--   Indexer/ReplayTarget: apps/indexer/src/replay-target.ts, with Load.
--   Indexer/Repository: the tables and apps/indexer/src/repository.ts. Configured has the profiles,
--     Writes the schemas, Generations the credentials and Ledgers `persistLedger`, each with the
--     constraints of its tables (db/schema/profiles.ts, catalog.ts, credentials.ts). Frames says what
--     each write leaves as it is; Profiles, Chain and Invariant prove about the checkpoints, Replay
--     about a ledger that comes again, Fenced about leases, Keys and Deleted about the generations.
--   Indexer/Sources: apps/indexer/src/quorum-ledger-source.ts and source-errors.ts, with Agreement.
--   Indexer/Worker: apps/indexer/src/worker.ts. Loop has `runOnce` and Start has `start`; Progress,
--     Batches and Runs prove about `runOnce`, Leases, Started and Released about the lease of `start`.
--   Sdk/Submission: packages/sdk/src/submission.ts. Flow has the requests and the wait, Submit the
--     submission; Waiting proves that the wait ends, Recovery what is journaled when a blob is
--     submitted, Matching which blobs are.
--   Web/IndexerStatus: apps/web/server/xcs/indexer-status.ts, ledger-freshness.ts and
--     credential-state.ts, with Ready.
--   Web/RateLimit: apps/web/server/xcs/rate-limit.ts, with Bounds and Budget.
--   Tests: runs at concrete inputs, and each theorem at one.
--
-- Conventions. A string is the list of its UTF-16 code units, a value of JSON a finite tree, an object
-- the list of its properties. A number of JSON is a natural number, an `other` finite number
-- (negative, or no integer), or not finite, as the Infinity that JSON.parse reads in 1e999: the code
-- tests numbers for being finite, for being integers from 0 or 1 on, and naturals for their size and
-- bits; the low bits of an `other` number are a parameter. Code that throws returns a result. A
-- database transaction is a function of the tables that returns the new tables, or an error and then
-- no tables, since it is rolled back. A time is in milliseconds; each operation on a lease reads the
-- clock once, which is what a caller's `now` does. Where no `now` is given, the statements of one
-- transaction read the database's clock one after the other, and the model has their common reading.
-- A table is the list of its rows, the newest first; an insert that a CHECK, a key or a reference
-- refuses is the error `constraint`, and ON CONFLICT DO NOTHING passes over a row whose key is there.
-- What the worker and the SDK call (the repository, the sources, the client, the signer, the host's
-- guards) is a record Ports of functions on a state of its own; the worker's repository is such a
-- record too, so that what is proved of `runOnce` holds of every repository, and of `start` of every one
-- with the laws of the record LeaseLaws. The time of a journal
-- entry, messages and observers are left out.
--
-- Bounds. `parseDescriptor` stops at depth 16: the model recurses on the levels that are left,
-- MAX_SCHEMA_DEPTH less the depth, so no fuel is added. `resolve` stops at depth 16 too, and recurses
-- on its levels in the same way. The loop of `runOnce` recurses on the number of ledgers between the
-- first and the last of the run. The wait of `waitForTransaction` runs on fuel, one turn more than the
-- milliseconds to its deadline: each turn ends with a delay, in which the clock goes on. The loop of
-- `start` runs for the turns after which its signal is found aborted, a number that is given.
--
-- Other packages. `isValidClassicAddress` and the base64 functions are functions of the record
-- Libraries; the JSON tokenizer, RFC 8785 and SHA-256 are functions of DocumentLibraries; decoding,
-- encoding, hashing and verifying a signed blob are functions of the record Codec, of which hashing
-- gives a hash for every blob. `rippleTimeToUnixTime` is a function `unix_time` of natural numbers. `isDeepStrictEqual`
-- is the parameter `same` of the sources. No theorem supposes anything of these functions. In Indexer/Mutations, whether a URI is an
-- accepted payload URI is a function that the model takes: its code, packages/core/src/payload-uri.ts,
-- stands on URL and CID parsers of other packages and is not modelled.
--
-- Not modelled: the client of apps/indexer/src/xrpl-source.ts, the retries of
-- serializable transactions, preflight and ceremony tools of the indexer, credential.ts and
-- payload-uri.ts of packages/core, the SDK's builders, the autofill of a transaction and the command
-- line, the rest of the API server and the web application, input and output. The copies of
-- packages/core and packages/sdk in the applications are kept in step by hand and are the same code.
pub mod Common
pub mod Core
pub mod Indexer
pub mod Tests
pub mod Sdk
pub mod Web
