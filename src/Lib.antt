-- ===== src/Lib.antt =====
-- Verification of repo-assessment-kit: the parts that decide what the kit is allowed to do.
--
-- The kit examines a repository. A privileged host helper runs registered operations on behalf of
-- the kit: it authenticates each request frame, admits it into a durable journal, runs a driver and
-- stores the response. Around it, a workflow moves each assessment run and its phases through
-- fixed state machines.
--
-- Prelude and its children hold tests, lists, dictionaries and results that the others share.
-- Json (and Json/Text) has the JavaScript values of frames, property access and `String(value)`.
-- Workflow models packages/workflow/src/index.ts: `transitionRun`, `transitionPhase`,
--   `createPhases` and `createDraftRun`; its children prove what histories of a run and of a phase
--   look like.
-- Journal models scripts/host-helper-journal.mjs: `admit`, `complete`, `pendingAccepted`,
--   `reconcileAccepted` and `recordMaintenance` as functions on the journal state. Its children say
--   what each has checked (Admit, Complete), how the journal grows over any sequence of operations
--   (Growth), and what follows for commands (Guarantees).
-- Protocol models scripts/host-helper-protocol.mjs: Grammar has the regular expressions and typed
--   tests, Shape the closed objects (`sameKeys`), Registry and ResultRegistry the tables of the 39
--   operations, ControlPlan and Payload the validation of payloads, Receipts, Capability
--   and Results `validateHostOperationResult` and its nested validators, Responses
--   `verifyHostResponse`, Canonical the canonical JSON, Reader, Strings, Scalars and Strict the parser
--   `parseStrictJsonBytes` (Strict/Members has the order of an object's properties), Frames
--   `encodeFrame` and `createFrameDecoder`, and Requests signing and `validateHostRequest`. Their children prove what an accepted request has passed
--   (Requests/Accepts) and an accepted response (Responses/Bound), that signed requests are authentic
--   (Requests/Signing), that closed objects have exactly their fields (Shape/Closed), that the tables
--   agree (Payload/Registered), that the parser reads what `canonicalJson` prints (Strict/RoundTrip,
--   by way of its strings in Texts, numbers in Numbers, and arrays and objects in Lists and Parts),
--   that it comes to an end on every text (Strict/Total, by what each reader leaves, in Leaves), and
--   that frames arrive however they are cut into chunks (Frames/Chunks, Frames/Transmit).
-- Service models `handle` of scripts/host-helper-service.mjs: it validates a frame, has the journal
--   admit it, calls the driver and completes the command, and its error path signs a rejection and
--   completes as well. Service/Effects says what a call may do to the journal and when it calls a
--   driver, Service/Once what follows for all calls. What a driver does is an argument of each call;
--   the host's registry of operations, `validateFixedOperation`, is an argument as well.
--   Service/Reconcile models `reconcile` and `emergencyStop`; Settled has what a reconciliation
--   settles, Reported (by way of Grown and Named) which commands these are, Written what a durable
--   write leaves, and Stopped what a stop has done.
-- Runtime models packages/runtime/src/capability.ts: `evaluateRuntimeCapability` and
--   `resolveRuntimeCoverage`. Runtime/Gate says when the runtime may be used.
-- Policy models packages/runtime/src/policy.ts: `validateRuntimePolicy` and all that it calls (Text and
--   Dockerfile read texts, Tables holds the constants, Parts and Resources validate the fields of a
--   service, Candidate the whole). Codes has the set of rejections; Variables has the forms in which a
--   candidate states variables; Interpolated, Rejected and Credentials say what is
--   refused; Contained, Accepted, Isolated and Memory what an accepted candidate keeps to. The arithmetic of doubles is the record `Doubles`, an argument; bytes of memory are natural numbers,
--   which is exact up to the limits that are compared.
-- Plans models packages/runtime/src/control-plan.ts in part: `InMemoryControlPlanAdmissionJournal` and the use
--   that `admitSignedDynamicControlPlan` makes of it. Coherent says that the two maps of the journal agree,
--   Once that no plan is admitted twice.
-- Engagement models scripts/engagement-id.mjs: `readExisting` and `resolveEngagementId`, with what each
--   look at the file finds as an argument. Engagement/Resolved says what may be returned.
-- Evidence models packages/evidence/src/index.ts: `sanitizeEvidenceText` (Order sorts the matches,
--   Kept and Covered say which redactions remain and what they cover, Rewrite which text is
--   written, Crossing what happens to matches that cross), `normalizeRepositoryPath` (Paths) and
--   `admitTextEvidence` (Admit). What a rule's regular expression matches is an argument.
--
-- What Node provides is the record `Platform`, an argument of the functions that use it: `Date.parse`,
-- SHA-256, HMAC and the parser of URLs. UTF-8, and the number that `JSON.parse` finds for a token with a
-- fraction or an exponent, are arguments of the parser and the frames.
--
-- An exception is a value of `Error`: the code of a `HostHelperError`, or `thrown` for any other.
-- Dictionaries are association lists; reading an inherited member of `Object.prototype` is written
-- out where the program does not rule it out. Counters and fence tokens are natural numbers, which
-- the program holds as decimal texts and compares as `BigInt`. The decimal printer's fuel is one
-- more than the number that it prints; the parser's is twice the length of the text, and one more,
-- since each call of it consumes a character or is followed by one that does; the decoder's loop has
-- two rounds, since a second one finds no byte left.
--
-- Not modelled: calls of `handle` that overlap; `deduplicateBlobs` and `createBlockedCoverage`; the
-- validation, signing, dispatch and reconciliation of control plans; files, locks, sockets and processes;
-- cryptography; the assessment runners, the packaging and reporting packages, the server and the web
-- application.
pub mod Prelude
pub mod Json
pub mod Workflow
pub mod Journal
pub mod Protocol
pub mod Service
pub mod Evidence
pub mod Runtime
pub mod Engagement
pub mod Policy
pub mod Plans
