-- ===== src/Protocol/Responses.antt =====
-- `verifyHostResponse` of scripts/host-helper-protocol.mjs: what the client checks of a response.
pub mod Bound
use repo_assessment_kit.Prelude.{
  ℕ, leb, ltb, eqb, ◌+◌, ◌/◌, String, Bool, false, ◌&&◌, ◌||◌, List, [], ◌∷◌, every, length,
  if◌then◌else◌,
}
use repo_assessment_kit.Prelude.Result.{Result, require, auth_failed, ◌>>=◌, ◌>>◌}
use repo_assessment_kit.Json.{Value, get, is_text, is_undefined, is_record, one_of}
use repo_assessment_kit.Json.Text.{to_text}
use repo_assessment_kit.Protocol.Grammar.{Platform, codes, is_digit, is_date, boolean, text_and}
use repo_assessment_kit.Protocol.Shape.{same_keys}
use repo_assessment_kit.Protocol.Canonical.{canonical_json}
use repo_assessment_kit.Protocol.Requests.{verify_mac}
use repo_assessment_kit.Protocol.Results.{same_text, operation_result_ok}

abbrev pub success_keys : List String
success_keys =
    "protocolVersion" ∷ "requestId" ∷ "commandId" ∷ "operation" ∷ "requestDigest" ∷ "state"
    ∷ "heartbeatAt" ∷ "result" ∷ "mac" ∷ []

abbrev pub failure_keys : List String
failure_keys =
    "protocolVersion" ∷ "requestId" ∷ "commandId" ∷ "operation" ∷ "requestDigest" ∷ "state"
    ∷ "error" ∷ "heartbeatAt" ∷ "mac" ∷ []

abbrev pub response_states : List String
response_states =
    "ACCEPTED" ∷ "RUNNING" ∷ "CHECKPOINTED" ∷ "PAUSED" ∷ "SUCCEEDED" ∷ "REJECTED" ∷ "FAILED"
    ∷ "CANCELLED" ∷ "INTERRUPTED" ∷ []

abbrev error_codes : List String
error_codes =
    "PROTOCOL_VERSION" ∷ "AUTH_FAILED" ∷ "REPLAY" ∷ "EXPIRED" ∷ "STALE_FENCE"
    ∷ "IDEMPOTENCY_CONFLICT" ∷ "UNKNOWN_REGISTERED_ID" ∷ "INVALID_TRANSITION" ∷ "POLICY_REJECTED"
    ∷ "RESOURCE_LIMIT" ∷ "NOT_CHECKPOINTABLE" ∷ "RESOURCE_NOT_FOUND" ∷ "INTERNAL" ∷ []

abbrev bound_fields : List String
bound_fields = "requestId" ∷ "commandId" ∷ "operation" ∷ "requestDigest" ∷ []

-- `/^[A-Z][A-Z0-9_]{0,127}$/u`.
upper : ℕ → Bool
upper c = leb b'A' c && leb c b'Z'

matches_message : List ℕ → Bool
unfolding upper is_digit
matches_message [] = false
matches_message (c ∷ cs) =
    upper c && every (λ d. upper d || is_digit d || eqb d b'_') cs && leb (length cs) 127

-- `Buffer.byteLength`, in UTF-8.
abbrev pub byte_length : List ℕ → ℕ
byte_length [] = 0
byte_length (c ∷ cs) =
    (if ltb c 0x80 then 1 else if ltb c 0x800 then 2 else if ltb c 0x10000 then 3 else 4)
    + byte_length cs

-- `HOST_HELPER_MAX_FRAME_BYTES`.
abbrev pub max_frame_bytes : ℕ
max_frame_bytes = 1048576

unfoldable pub failure_ok : Value → Bool
unfolding matches_message
failure_ok response =
    let error = get response "error" in
    same_keys error ("code" ∷ "message" ∷ "retryable" ∷ "cleanupRequired" ∷ [])
    && one_of error_codes (get error "code")
    && text_and (λ s. matches_message (codes s)) (get error "message")
    && boolean (get error "retryable")
    && boolean (get error "cleanupRequired")
    && one_of ("REJECTED" ∷ "FAILED" ∷ []) (get response "state")

module _ (node : Platform) where
  -- The request is one that the client has signed: the fields that are compared are texts.
  unfoldable pub binding_ok : Value → Value → List ℕ → Result (Unit {0})
  binding_ok response request key = do
    require
        (same_keys response
          (if is_undefined (get response "error") then success_keys else failure_keys))
        auth_failed
    require (is_text (get response "protocolVersion") "1.0.0") auth_failed
    require (every (λ name. same_text (get request name) (get response name)) bound_fields)
        auth_failed
    genuine ← verify_mac node response key
    require genuine auth_failed

  unfoldable pub success_ok : Value → Value → Result (Unit {0})
  success_ok response request = do
    require (is_record (get response "result")) auth_failed
    text ← canonical_json (get response "result")
    require (leb (byte_length text) (max_frame_bytes / 2)) auth_failed
    require
        (operation_result_ok node (to_text (get request "operation")) (get response "result")
          (to_text (get response "state")))
        auth_failed

  -- The function returns a clone of the response; here it returns nothing.
  unfoldable pub verify_host_response : Value → Value → List ℕ → Result (Unit {0})
  verify_host_response response request key = do
    binding_ok response request key
    require
        (one_of response_states (get response "state")
          && is_date node (to_text (get response "heartbeatAt")))
        auth_failed
    (if is_undefined (get response "error")
        then success_ok response request
        else require (failure_ok response) auth_failed)
