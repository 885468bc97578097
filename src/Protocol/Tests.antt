-- ===== src/Protocol/Tests.antt =====
-- A request through scripts/host-helper-protocol.mjs: signed, checked, and used in time.
use Prim.Native.String
use mathlib.Core.List.{Perm}
use repo_assessment_kit.Prelude.{
  ℕ, ◌+◌, ◌≡◌, refl, ◌↔◌, ◌<◌, ◌≢◌, String, false, true, none, some, List, [], ◌∷◌, ◌==◌, ◌⊎◌,
  includes, if◌then◌else◌,
}
use repo_assessment_kit.Prelude.Dict.{lookup, insert, erase}
use repo_assessment_kit.Prelude.Result.{ok}
use repo_assessment_kit.Json.{Value, Fields, str, bool, obj, fields_of, get, inherited}
use repo_assessment_kit.Json.Text.{to_text}
use repo_assessment_kit.Protocol.Grammar.{
  Platform, matches_safe_id, matches_decimal, matches_digest, matches_hex64, safe_id, is_digit,
  boolean,
}
use repo_assessment_kit.Protocol.Shape.{same_keys}
use repo_assessment_kit.Protocol.Registry.{request_keys, operation_payload_keys}
use repo_assessment_kit.Protocol.Payload.{validate_operation_payload, payload_cases}
use repo_assessment_kit.Protocol.Canonical.{canonical_json}
use repo_assessment_kit.Protocol.Requests.{
  digest_canonical, unsigned_request, mac_of, sign_host_request, verify_mac, without, with_field,
  payload_shape_ok, is_fresh, header_ok, authenticated, validate_host_request,
}
use repo_assessment_kit.Protocol.Requests.Accepts.{
  IsAccepted, validate_host_request-IsAccepted, accepted_window,
}
use repo_assessment_kit.Protocol.Responses.{
  response_states, failure_ok, binding_ok, verify_host_response,
}
use repo_assessment_kit.Protocol.Responses.Bound.{
  IsBound, IsFailure, IsSuccess, verify_host_response-IsBound,
}
use repo_assessment_kit.Protocol.Shape.Closed.{same_keys-Perm}
use repo_assessment_kit.Protocol.Payload.Registered.{registered_iff}
use repo_assessment_kit.Protocol.Requests.Signing.{sign-authenticated}

-- A stand-in for Node: digests of one value, and a clock text of one second.
abbrev zeros : String
zeros = "0000000000000000000000000000000000000000000000000000000000000000"

abbrev pub node : Platform
node = record {
  date_parse = λ s. if s == "t1" then some 1000 else if s == "t2" then some 31000 else none;
  sha256_hex = λ t. zeros;
  hmac_hex = λ k t. zeros;
  parse_url = λ s. none;
}

abbrev pub key : List ℕ
key =
    1 ∷ 1 ∷ 1 ∷ 1 ∷ 1 ∷ 1 ∷ 1 ∷ 1 ∷ 1 ∷ 1 ∷ 1 ∷ 1 ∷ 1 ∷ 1 ∷ 1 ∷ 1 ∷ 1 ∷ 1 ∷ 1 ∷ 1 ∷ 1 ∷ 1 ∷ 1 ∷ 1
    ∷ 1 ∷ 1 ∷ 1 ∷ 1 ∷ 1 ∷ 1 ∷ 1 ∷ 1 ∷ []

abbrev status_fields : List (String × Value)
status_fields =
    ("protocolVersion", str "1.0.0")
    ∷ ("installationId", str "kit")
    ∷ ("requestId", str "q1")
    ∷ ("commandId", str "c1")
    ∷ ("runId", str "run1")
    ∷ ("attemptId", str "a1")
    ∷ ("fenceToken", str "3")
    ∷ ("idempotencyKey", str "k1")
    ∷ ("counter", str "7")
    ∷ ("nonce", str zeros)
    ∷ ("issuedAt", str "t1")
    ∷ ("expiresAt", str "t2")
    ∷ ("operation", str "vm.status")
    ∷ ("payload", obj (fields_of (("runtimeId", str "rt1") ∷ [])))
    ∷ []

abbrev status_input : Fields
status_input = fields_of status_fields

abbrev pub signed : Value
signed =
    with_field "mac" (str zeros)
      (with_field "requestDigest" (str (String.◌++◌ "sha256:" zeros)) (obj status_input))

signed_is : sign_host_request node (obj status_input) key ≡ ok signed
unfolding sign_host_request digest_canonical unsigned_request mac_of without with_field erase insert
    canonical_json
signed_is = refl

accepted : validate_host_request node signed key 2000 ≡ ok tt
unfolding validate_host_request header_ok payload_shape_ok validate_operation_payload is_fresh
    authenticated verify_mac digest_canonical unsigned_request mac_of without with_field erase
    insert lookup get canonical_json same_keys to_text matches_safe_id matches_decimal
    matches_digest matches_hex64 request_keys operation_payload_keys inherited safe_id
accepted = refl

validate_host_request-IsAccepted_example : IsAccepted node signed key 2000
validate_host_request-IsAccepted_example =
    validate_host_request-IsAccepted node signed key 2000 accepted

accepted_window_example : 2000 < 2000 + 65000
accepted_window_example = accepted_window node signed key 2000 2000 accepted accepted

sign-authenticated_example :
    (authenticated node signed key ≡ ok tt)
    × ((name : String)
        → name ≢ "mac"
        → name ≢ "requestDigest"
        → get signed name ≡ get (obj status_input) name)
unfolding matches_hex64
sign-authenticated_example = sign-authenticated node status_input key signed (λ k t. refl) signed_is

registered_iff_example :
    (lookup "vm.status" operation_payload_keys ≢ none)
    ↔ (lookup "vm.status" (payload_cases node (obj status_input)) ≢ none)
registered_iff_example = registered_iff node (obj status_input) "vm.status"

same_keys-Perm_example : Perm {A = String} ("b" ∷ "a" ∷ []) ("a" ∷ "b" ∷ [])
unfolding same_keys
same_keys-Perm_example =
    same_keys-Perm (fields_of (("b", str "1") ∷ ("a", str "2") ∷ [])) ("a" ∷ "b" ∷ []) refl

-- A rejection that answers the signed request.
abbrev refusal : Value
refusal = obj (
    fields_of (
      ("protocolVersion", str "1.0.0")
      ∷ ("requestId", str "q1")
      ∷ ("commandId", str "c1")
      ∷ ("operation", str "vm.status")
      ∷ ("requestDigest", str (String.◌++◌ "sha256:" zeros))
      ∷ ("state", str "REJECTED")
      ∷ ("heartbeatAt", str "t1")
      ∷ (
        "error",
        obj (
            fields_of (
              ("code", str "EXPIRED")
              ∷ ("message", str "EXPIRED")
              ∷ ("retryable", bool false)
              ∷ ("cleanupRequired", bool false)
              ∷ [])),
      )
      ∷ ("mac", str zeros)
      ∷ []))

refusal_accepted : verify_host_response node refusal signed key ≡ ok tt
unfolding verify_host_response binding_ok failure_ok verify_mac mac_of without with_field erase
    insert lookup get canonical_json same_keys to_text matches_hex64 is_digit boolean
refusal_accepted = refl

verify_host_response-IsBound_example :
    IsBound node refusal signed key
    × ((state : String) × (get refusal "state" ≡ str state)
        × (includes response_states state ≡ true))
    × (IsFailure node refusal signed key ⊎ IsSuccess node refusal signed key)
verify_host_response-IsBound_example =
    verify_host_response-IsBound node refusal signed key refusal_accepted
