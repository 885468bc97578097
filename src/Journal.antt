-- ===== src/Journal.antt =====
-- scripts/host-helper-journal.mjs: the durable record of the commands that the host helper has
-- admitted. Each operation is the callback that the source hands to `transaction`, as a function
-- from the draft to the next state. The queue and the durable write of `transaction` are not modelled; where a
-- caller may hand over what is no JSON, Service/Reconcile has the failure of the write.
--
-- `counters` and `fences` hold decimal texts in the source and are compared as `BigInt`; here they
-- are the natural numbers that those texts denote. A `Request` holds the texts of the fields of an
-- authenticated request. The file and its lock are left out.
pub mod Admit
pub mod Complete
pub mod Pending
pub mod Growth
pub mod Guarantees
pub mod Tests
use Prim.Native.String
use repo_assessment_kit.Prelude.{
  ℕ, String, Bool, true, false, not, ◌&&◌, ◌||◌, Option, none, some, List, [], ◌∷◌, leb, ltb,
  if◌then◌else◌, ◌==◌,
}
use repo_assessment_kit.Prelude.Dict.{lookup, insert, erase}
use repo_assessment_kit.Prelude.Result.{
  replay, stale_fence, idempotency_conflict, invalid_transition, internal, thrown, Result, ok,
  throws, ◌>>=◌,
}
use repo_assessment_kit.Json.Text.{to_text}
use repo_assessment_kit.Json.{
  Value, undefined, null, str, obj, fields_of, get, read, is_text, is_undefined, inherited,
}

pub record Request : Type 0 where
  pub installation_id : String
  pub request_id : String
  pub command_id : String
  pub run_id : String
  pub attempt_id : String
  pub fence_token : ℕ
  pub idempotency_key : String
  pub counter : ℕ
  pub nonce : String
  pub operation : String
  pub payload : Value
  pub request_digest : String

pub record Entry : Type 0 where
  pub request_digest : String
  pub operation : String
  pub request_id : String
  pub command_id : String
  pub run_id : String
  pub attempt_id : String
  pub fence_token : ℕ
  pub state : Value
  pub result : Option Value

pub record Resource : Type 0 where
  pub resource_id : String
  pub operation : String
  pub run_id : String
  pub attempt_id : String
  pub fence_token : ℕ
  pub creation_nonce : Value
  pub state : Value

pub record Journal : Type 0 where
  pub counters : List (String × ℕ)
  pub nonces : List (String × String)
  pub fences : List (String × ℕ)
  pub idempotency : List (String × Entry)
  pub resources : List (String × Resource)
  pub cleanup : List (String × Value)

abbrev pub empty : Journal
empty = record {
  counters = [];
  nonces = [];
  fences = [];
  idempotency = [];
  resources = [];
  cleanup = [];
}

-- What `admit` returns.
pub data Admission : Type 0 where
  fresh : Admission
  replayed : Value → Admission

-- `counter <= highest`, where `highest` is -1 if there is none.
abbrev pub not_above : ℕ → Option ℕ → Bool
not_above counter none = false
not_above counter (some highest) = leb counter highest

-- `draft.nonces[nonce] !== undefined`: an own or an inherited property.
pub is_used : String → Journal → Bool
unfolding lookup
is_used nonce j = elim (lookup nonce j.nonces) [ none ↦ inherited nonce | some _ ↦ true ]

-- `BigInt(draft.fences[runId] ?? fenceToken)`: `BigInt` of an inherited member is a `SyntaxError`.
pub current_fence : Request → Journal → Result ℕ
current_fence r j = elim (lookup r.run_id j.fences) [
  | none ↦ if inherited r.run_id then throws thrown else ok r.fence_token
  | some fence ↦ ok fence
]

abbrev pub scope_of : Request → String
scope_of r = String.◌++◌ r.installation_id (String.◌++◌ ":" r.run_id)

abbrev pub accepted_entry : Request → Entry
accepted_entry r = record {
  request_digest = r.request_digest;
  operation = r.operation;
  request_id = r.request_id;
  command_id = r.command_id;
  run_id = r.run_id;
  attempt_id = r.attempt_id;
  fence_token = r.fence_token;
  state = str "ACCEPTED";
  result = none;
}

-- The last part of `admit`, where all checks have passed.
abbrev pub record_admission : Request → Journal → Journal
record_admission r j = record j {
  counters = insert (scope_of r) r.counter j.counters;
  nonces = insert r.nonce r.request_digest j.nonces;
  fences = insert r.run_id r.fence_token j.fences;
  idempotency = insert r.idempotency_key (accepted_entry r) j.idempotency;
}

-- `admit` where the idempotency key is new.
pub admit_new : Request → Journal → Result (Admission × Journal)
admit_new r j =
    if not_above r.counter (lookup (scope_of r) j.counters) || is_used r.nonce j
    then throws replay
    else do
      current ← current_fence r j
      if ltb r.fence_token current then throws stale_fence else ok (fresh, record_admission r j)

-- `admit` where the idempotency key has an entry.
pub admit_again : Entry → Request → Journal → Result (Admission × Journal)
admit_again prior r j =
    if not (prior.request_digest == r.request_digest) || not (prior.operation == r.operation)
    then throws idempotency_conflict
    else elim prior.result [
      | none ↦ throws invalid_transition
      | some result ↦ ok (replayed result, j)
    ]

-- An inherited member is no entry of the request, so its digest differs.
pub admit : Request → Journal → Result (Admission × Journal)
unfolding admit_new admit_again
admit r j = elim (lookup r.idempotency_key j.idempotency) [
  | some prior ↦ admit_again prior r j
  | none ↦ if inherited r.idempotency_key then throws idempotency_conflict else admit_new r j
]

-- The identifier under which `complete` records a resource, or `undefined`.
pub resource_of : Request → Value → Result Value
unfolding read get
resource_of r response =
    if r.operation == "vm.create"
    then read r.payload "runtimeId"
    else if r.operation == "provider.stage"
    then read r.payload "jobId"
    else if r.operation == "source.acquire"
    then ok (get (get response "result") "sourceCommandId")
    else ok undefined

-- The identifier whose resource `complete` may remove, or `undefined`.
pub cleanup_of : Request → Result Value
unfolding read
cleanup_of r =
    if r.operation == "vm.destroy" || r.operation == "vm.emergencyStop"
    then read r.payload "runtimeId"
    else if r.operation == "provider.cleanup"
    then read r.payload "jobId"
    else ok undefined

-- `first ?? second`.
abbrev or_else : Value → Value → Value
or_else undefined v = v
or_else null v = v
or_else u v = u

abbrev pub resource_entry : Request → Value → Value → Resource
resource_entry r response id = record {
  resource_id = to_text id;
  operation = r.operation;
  run_id = r.run_id;
  attempt_id = r.attempt_id;
  fence_token = r.fence_token;
  creation_nonce =
      or_else (get (get response "result") "creationNonce")
        (or_else (get (get response "result") "runtimeCreationNonce") (str r.nonce));
  state = get response "state";
}

unfoldable pub set_resource : Request → Value → Value → Journal → Journal
set_resource r response id j =
    if is_undefined id
    then j
    else record j { resources = insert (to_text id) (resource_entry r response id) j.resources }

-- `result.result?.cleanup`, whose state decides whether the resource is forgotten.
abbrev pub cleanup_result : Value → Value
cleanup_result response = get (get response "result") "cleanup"

unfoldable pub drop_resource : Value → Value → Journal → Journal
drop_resource response id j =
    if not (is_undefined id) && is_text (get (cleanup_result response) "state") "COMPLETE"
    then record j {
      resources = erase (to_text id) j.resources;
      cleanup = insert (to_text id) (cleanup_result response) j.cleanup;
    }
    else j

abbrev pub settled : Entry → Value → Entry
settled entry response = record entry { state = get response "state"; result = some response }

abbrev pub settle : String → Entry → Value → Journal → Journal
settle key entry response j = record j {
  idempotency = insert key (settled entry response) j.idempotency;
}

-- `complete`; an absent entry and an inherited member have another digest than the request.
pub complete : Request → Value → Journal → Result Journal
unfolding read
complete r response j = elim (lookup r.idempotency_key j.idempotency) [
  | none ↦ throws internal
  | some admission ↦
      if not (admission.request_digest == r.request_digest) then throws internal else do
        state ← read response "state"
        resource ← resource_of r response
        removed ← cleanup_of r
        ok (
            drop_resource response removed
              (set_resource r response resource (settle r.idempotency_key admission response j)))
]

-- `entry.state === "ACCEPTED" && entry.result === undefined`.
unfoldable pub is_pending : Entry → Bool
is_pending entry =
    is_text entry.state "ACCEPTED" && elim entry.result [ none ↦ true | some _ ↦ false ]

-- The loop of `pendingAccepted`.
unfoldable pub pending_of : List (String × Entry) → List (String × Entry)
pending_of [] = []
pending_of ((key, entry) ∷ rest) =
    if is_pending entry then (key, entry) ∷ pending_of rest else pending_of rest

unfoldable pub pending_accepted : Journal → List (String × Entry)
unfolding pending_of
pending_accepted j = pending_of j.idempotency

-- `result.state` throws a `TypeError` where there is no result.
unfoldable pub reconcile_accepted : String → String → Value → Journal → Result Journal
unfolding is_pending read
reconcile_accepted key request_digest response j = elim (lookup key j.idempotency) [
  | none ↦ throws invalid_transition
  | some entry ↦
      if is_pending entry && entry.request_digest == request_digest
      then (read response "state" >>= λ state. ok (settle key entry response j))
      else throws invalid_transition
]

-- `recorded_at` is the text of the clock.
unfoldable pub record_maintenance : String → String → Value → String → Journal → Journal
record_maintenance resource_id phase detail recorded_at j = record j {
  cleanup =
      insert resource_id
        (obj (
          fields_of
            (("phase", str phase) ∷ ("detail", detail) ∷ ("recordedAt", str recorded_at) ∷ [])))
        j.cleanup;
}
