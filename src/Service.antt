-- ===== src/Service.antt =====
-- `handle` of scripts/host-helper-service.mjs: one command of the privileged host helper, from the
-- frame to the response. One call runs at a time here; in the source calls may overlap between two
-- transactions of the journal. The socket, the peer check and the files of the helper are left out.
--
-- The journal reads the fields of a frame as texts and natural numbers (`request_of`). That is
-- exact for a frame whose header holds texts, which is what the client sends.
pub mod Effects
pub mod Once
pub mod Reconcile
pub mod Tests
use repo_assessment_kit.Prelude.{
  ℕ, suc, ◌+◌, ◌*◌, ◌-◌, String, Bool, true, false, not, ◌&&◌, ◌||◌, Option, none, some, List, [],
  ◌∷◌, ◌++◌, ◌==◌, if◌then◌else◌,
}
use repo_assessment_kit.Prelude.Result.{
  Error, protocol_version, auth_failed, replay, expired, stale_fence, idempotency_conflict,
  unknown_registered_id, invalid_transition, policy_rejected, resource_limit, not_checkpointable,
  resource_not_found, internal, thrown, Result, ok, throws, require, ◌>>=◌, ◌>>◌,
}
use repo_assessment_kit.Json.{is_truthy, Value, str, bool, obj, fields_of, get, is_undefined}
use repo_assessment_kit.Json.Text.{to_text}
use repo_assessment_kit.Journal.{
  Request, Journal, Admission, fresh, replayed, admit, complete, record_maintenance,
}
use repo_assessment_kit.Protocol.Grammar.{Platform, codes, safe_id, digest, text_and}
use repo_assessment_kit.Protocol.Requests.{validate_host_request, sign_host_response, field_text}
use repo_assessment_kit.Protocol.Results.{operation_result_ok}

-- The number of a decimal text.
decimal_value : ℕ → List ℕ → ℕ
decimal_value n [] = n
decimal_value n (c ∷ cs) = decimal_value (n * 10 + (c - b'0')) cs

-- The journal, and the idempotency keys of the commands whose driver was called, the latest first.
pub record State : Type 0 where
  pub journal : Journal
  pub driven : List String

-- What a driver does when it is called: the phases that it records and its outcome.
pub record Drive : Type 0 where
  pub phases : List String
  pub outcome : Result Value

abbrev pub code_text : Error → String
code_text protocol_version = "PROTOCOL_VERSION"
code_text auth_failed = "AUTH_FAILED"
code_text replay = "REPLAY"
code_text expired = "EXPIRED"
code_text stale_fence = "STALE_FENCE"
code_text idempotency_conflict = "IDEMPOTENCY_CONFLICT"
code_text unknown_registered_id = "UNKNOWN_REGISTERED_ID"
code_text invalid_transition = "INVALID_TRANSITION"
code_text policy_rejected = "POLICY_REJECTED"
code_text resource_limit = "RESOURCE_LIMIT"
code_text not_checkpointable = "NOT_CHECKPOINTABLE"
code_text resource_not_found = "RESOURCE_NOT_FOUND"
code_text internal = "INTERNAL"
code_text thrown = "INTERNAL"

safe : Value → Value
safe v = if safe_id v then v else str "invalid"

zero_digest : Value
zero_digest = str "sha256:0000000000000000000000000000000000000000000000000000000000000000"

-- `responseBase`, at the time that the clock shows.
unfoldable pub response_base : Value → Value → String → List (String × Value)
unfolding safe zero_digest
response_base frame state time =
    ("protocolVersion", str "1.0.0")
    ∷ ("requestId", safe (get frame "requestId"))
    ∷ ("commandId", safe (get frame "commandId"))
    ∷ ("operation", safe (get frame "operation"))
    ∷ (
      "requestDigest",
      if digest (get frame "requestDigest") then get frame "requestDigest" else zero_digest,
    )
    ∷ ("state", state)
    ∷ ("heartbeatAt", str time)
    ∷ []

-- The response of the `catch` block, before it is signed.
unfoldable pub rejection : Value → Error → String → Value
unfolding response_base
rejection frame x time =
    let code = code_text x in
    obj (
      fields_of (
        response_base frame (str "REJECTED") time
        ++ (
          "error",
          obj (
              fields_of (
                ("code", str code)
                ∷ ("message", str code)
                ∷ ("retryable", bool (code == "INTERNAL"))
                ∷ ("cleanupRequired", bool (code == "INTERNAL" || code == "INVALID_TRANSITION"))
                ∷ [])),
        )
          ∷ []))

-- The state after a transaction of the journal whose failure is ignored.
unfoldable pub kept : State → Result Journal → State
kept s (throws x) = s
kept s (ok j) = record s { journal = j }

module _ (node : Platform) where
  unfoldable pub request_of : Value → Request
  unfolding decimal_value
  request_of frame = record {
    installation_id = field_text node frame "installationId";
    request_id = field_text node frame "requestId";
    command_id = field_text node frame "commandId";
    run_id = field_text node frame "runId";
    attempt_id = field_text node frame "attemptId";
    fence_token = decimal_value 0 (codes (field_text node frame "fenceToken"));
    idempotency_key = field_text node frame "idempotencyKey";
    counter = decimal_value 0 (codes (field_text node frame "counter"));
    nonce = field_text node frame "nonce";
    operation = field_text node frame "operation";
    payload = get frame "payload";
    request_digest = field_text node frame "requestDigest";
  }

-- The helper's key and installation, and `validateFixedOperation` of host-helper-operations.mjs for
-- its configuration, on an operation and a payload: the registry of the host is not modelled.
module _ (node : Platform) (key : List ℕ) (installation : String)
    (validate_fixed_operation : Value → Value → Result (Unit {0})) where
  -- What comes before the admission.
  unfoldable pub checked : Value → ℕ → Result (Unit {0})
  checked frame now = do
    validate_host_request node frame key now
    require (text_and (λ s. s == installation) (get frame "installationId")) auth_failed
    validate_fixed_operation (get frame "operation") (get frame "payload")

  -- `recordPhase`, which only the emergency stop is given.
  unfoldable pub record_phases : Value → String → List String → Journal → Journal
  record_phases frame time [] j = j
  record_phases frame time (phase ∷ phases) j = record_phases frame time phases (
      record_maintenance (to_text (get (get frame "payload") "runtimeId")) phase
        (obj
          (fields_of (("runId", get frame "runId") ∷ ("fenceToken", get frame "fenceToken") ∷ [])))
        time j)

  -- `result?.state ?? "SUCCEEDED"`. A state that is neither `undefined`, `null` nor a text is
  -- refused below; the source may sign it, and the client then refuses the response.
  unfoldable pub state_text : Value → String
  state_text Value.undefined = "SUCCEEDED"
  state_text Value.null = "SUCCEEDED"
  state_text v = to_text v

  -- The response to a driver's result.
  unfoldable pub answer : Value → String → Value → Result Value
  answer frame time result = do
    let state = state_text (get result "state")
    require (operation_result_ok node (field_text node frame "operation") result state) auth_failed
    sign_host_response node
        (obj (fields_of (response_base frame (str state) time ++ ("result", result) ∷ []))) key

  -- `await journal.complete(request, response); return response`.
  unfoldable pub deliver : Value → State → Result Value → State × Result Value
  deliver frame s (throws x) = (s, throws x)
  deliver frame s (ok response) =
      let done = complete (request_of node frame) response s.journal in
      (kept s done, (done >>= λ j. ok response))

  -- The journal once the driver has run.
  unfoldable pub driven_state : Value → String → Drive → State → State
  driven_state frame time drive s = record {
    journal =
        if field_text node frame "operation" == "vm.emergencyStop"
        then record_phases frame time drive.phases s.journal
        else s.journal;
    driven = field_text node frame "idempotencyKey" ∷ s.driven;
  }

  unfoldable pub execute : Value → String → Option Drive → State → State × Result Value
  execute frame time none s = (s, throws unknown_registered_id)
  execute frame time (some drive) s =
      deliver frame (driven_state frame time drive s) (drive.outcome >>= answer frame time)

  unfoldable pub proceed :
      Value → String → Option Drive → State → Result (Admission × Journal) → State × Result Value
  proceed frame time driver s (throws x) = (s, throws x)
  proceed frame time driver s (ok (fresh, j)) = execute frame time driver (record s { journal = j })
  proceed frame time driver s (ok (replayed response, j)) = (record s { journal = j }, ok response)

  -- The `try` block. The driver is the one of the operation, if there is one.
  unfoldable pub attempt : Value → ℕ → String → Option Drive → State → State × Result Value
  attempt frame now time driver s =
      proceed frame time driver s (checked frame now >> admit (request_of node frame) s.journal)

  -- `if (idempotencyKey && requestDigest) await journal.complete(…).catch(() => {})`. A digest that is
  -- no text is that of no entry, so `complete` throws.
  unfoldable pub settle_rejected : Value → Value → State → State
  settle_rejected frame response s =
      if is_truthy (get frame "idempotencyKey")
        && text_and (λ d. not (d == "")) (get frame "requestDigest")
      then kept s (complete (request_of node frame) response s.journal)
      else s

  unfoldable pub rejected : Value → State → Result Value → State × Result Value
  rejected frame s (throws y) = (s, throws y)
  rejected frame s (ok response) = (settle_rejected frame response s, ok response)

  -- The `catch` block.
  unfoldable pub reject : Value → String → State → Error → State × Result Value
  reject frame time s x = rejected frame s (sign_host_response node (rejection frame x time) key)

  unfoldable pub caught : Value → String → State × Result Value → State × Result Value
  caught frame time (s, ok response) = (s, ok response)
  caught frame time (s, throws x) = reject frame time s x

  unfoldable pub handle : Value → ℕ → String → Option Drive → State → State × Result Value
  handle frame now time driver s = caught frame time (attempt frame now time driver s)
