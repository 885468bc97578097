-- ===== src/Protocol/Results.antt =====
-- `validateHostOperationResult` and `validateNestedOperationResult` of
-- scripts/host-helper-protocol.mjs, as the tests whether they return. Where they do not, they throw
-- AUTH_FAILED, or a `TypeError` on a `null` whose field is read; the two are not told apart.
use repo_assessment_kit.Prelude.{
  ℕ, eqb, String, Bool, true, false, not, ◌&&◌, ◌||◌, none, some, List, [], ◌∷◌, ◌++◌, every,
  length, includes, ◌==◌,
}
use repo_assessment_kit.Prelude.Dict.{lookup}
use repo_assessment_kit.Json.{
  Value, obj, str, keys, entries, get, is_text, is_undefined, inherited, one_of,
}
use repo_assessment_kit.Json.Text.{to_text}
use repo_assessment_kit.Protocol.Grammar.{
  Platform, codes, matches_safe_id, matches_digest, matches_image, after_prefix, safe_id, digest,
  decimal, timestamp, text_and, text_within, array_of, is_date,
}
use repo_assessment_kit.Protocol.Shape.{same_keys}
use repo_assessment_kit.Protocol.ControlPlan.{receipt_ok, control_plan_ok}
use repo_assessment_kit.Protocol.Receipts.{
  cleanup_ok, signed_authority_ok, provider_result_ok, analyzer_outcome_ok, only_fields,
}
use repo_assessment_kit.Protocol.Capability.{runtime_capability_ok}
use repo_assessment_kit.Protocol.ResultRegistry.{operation_result_keys, result_states}

-- `Object.values(value).every(test)` on a record.
all_values : (Value → Bool) → Value → Bool
all_values test (obj fs) = every (λ (name, v). test v) (entries fs)
all_values test _ = false

-- `left === right`, where the left side is a text.
abbrev pub same_text : Value → Value → Bool
same_text (str s) v = is_text v s
same_text _ v = false

provider_preflight_ok : Platform → Value → Bool
unfolding all_values
provider_preflight_ok node r =
    signed_authority_ok node (get r "providerHomeAuthority") "provider-home authority"
    && signed_authority_ok node (get r "providerEgressAttestation") "provider-egress attestation"
    && safe_id (get r "providerHomeId")
    && text_and (λ s. matches_image (codes s)) (get r "immutableImageReference")
    && all_values (text_within 0 255) (get r "versions")

source_progress_ok : Value → Bool
source_progress_ok p =
    same_keys p ("filesSeen" ∷ "bytesRead" ∷ [])
    && decimal (get p "filesSeen")
    && decimal (get p "bytesRead")

reconcile_resource_ok : Platform → Value → Bool
reconcile_resource_ok node v =
    same_keys v (
      "kind" ∷ "resourceId" ∷ "runId" ∷ "attemptId" ∷ "fenceToken" ∷ "creationNonce" ∷ "state"
      ∷ "heartbeatAt" ∷ [])
    && one_of ("source-worker" ∷ "analyzer-worker" ∷ "vm" ∷ []) (get v "kind")
    && every (λ name. safe_id (get v name))
        ("resourceId" ∷ "runId" ∷ "attemptId" ∷ "creationNonce" ∷ [])
    && decimal (get v "fenceToken")
    && timestamp node (get v "heartbeatAt")

guard_result_ok : Platform → Value → Bool
guard_result_ok node r =
    let plan = get r "signedControlPlan" in
    control_plan_ok node plan
    && safe_id (get r "runtimeId")
    && safe_id (get r "controlPlanId")
    && digest (get r "controlPlanDigest")
    && same_text (get r "controlPlanDigest") (get plan "payloadDigest")
    && same_text (get r "runtimeId") (get (get plan "payload") "runtimeId")
    && same_text (get r "controlPlanId") (get (get plan "payload") "controlPlanId")
    && timestamp node (get r "issuedAt")
    && timestamp node (get r "expiresAt")
    && same_text (get r "issuedAt") (get (get plan "payload") "issuedAt")
    && same_text (get r "expiresAt") (get (get plan "payload") "expiresAt")

-- The cases of the `switch`.
nested_cases : Platform → Value → List (String × Bool)
unfolding provider_preflight_ok source_progress_ok reconcile_resource_ok guard_result_ok
nested_cases node r =
    ("provider.preflight", provider_preflight_ok node r)
    ∷ ("provider.execute", provider_result_ok node (get r "providerResult"))
    ∷ ("source.status", source_progress_ok (get r "progress"))
    ∷ ("source.finalize", receipt_ok (get r "receipt"))
    ∷ ("analyzer.pause", array_of receipt_ok (get r "closedReceipts"))
    ∷ (
      "analyzer.finalize",
      analyzer_outcome_ok node (get r "outcome") && array_of receipt_ok (get r "receipts"),
    )
    ∷ ("vm.preflight", runtime_capability_ok (get r "capability"))
    ∷ ("vm.acquireBuildInputs", receipt_ok (get r "egressAuditReceipt"))
    ∷ ("vm.build", receipt_ok (get r "buildReceipt"))
    ∷ ("vm.probe", array_of receipt_ok (get r "controlResultReceipts"))
    ∷ ("vm.collect", array_of receipt_ok (get r "receipts"))
    ∷ (
      "reconcile.list",
      safe_id (get r "installationId") && array_of (reconcile_resource_ok node) (get r "resources"),
    )
    ∷ ("request-guard.issue", guard_result_ok node r)
    ∷ ("vm.emergencyStop", safe_id (get r "runtimeId"))
    ∷ []

unfoldable pub nested_ok : Platform → String → Value → Bool
unfolding lookup nested_cases
nested_ok node operation r =
    (is_undefined (get r "cleanup") || cleanup_ok node (get r "cleanup"))
    && elim (lookup operation (nested_cases node r)) [ none ↦ true | some passed ↦ passed ]

-- `/suffix$/` on a name.
ends_with : String → List ℕ → Bool
ends_with suffix [] = false
ends_with suffix (c ∷ cs) =
    after_prefix (codes suffix) (λ rest. eqb (length rest) 0) (c ∷ cs) || ends_with suffix cs

contains : String → List ℕ → Bool
contains part [] = false
contains part (c ∷ cs) = after_prefix (codes part) (λ rest. true) (c ∷ cs) || contains part cs

-- A text that matches, or an array whose items match once they are converted to texts.
matching : (List ℕ → Bool) → Value → Bool
matching test v =
    text_and (λ s. test (codes s)) v || array_of (λ item. test (codes (to_text item))) v

-- The body of the loop over the fields.
unfoldable pub field_ok : Platform → String → Value → Bool
unfolding ends_with contains matching
field_ok node name v =
    (not (ends_with "Digest" (codes name) || ends_with "Digests" (codes name))
      || matching matches_digest v)
    && (not (ends_with "Id" (codes name) || ends_with "Ids" (codes name))
        || matching matches_safe_id v)
    && (not (ends_with "At" (codes name) || contains "heartbeatAt" (codes name)) || text_or_other v)
  where
    text_or_other : Value → Bool
    text_or_other (str s) = is_date node s
    text_or_other _ = true

-- The fields of the result, by the table or, for an operation that is not in it, by the presence of
-- a state.
unfoldable pub fields_closed : String → Value → Bool
fields_closed operation (obj fs) = elim (lookup operation operation_result_keys) [
  | some schema ↦
      every (λ name. includes (keys fs) name || inherited name) schema.required
      && only_fields (schema.required ++ schema.optional) (obj fs)
  | none ↦
      not (inherited operation)
      && (includes (keys fs) "state"
          || operation == "reconcile.list" && not (eqb (length (keys fs)) 0))
]
fields_closed operation _ = false

-- `RESULT_STATES[operation].includes(result.state)`.
unfoldable pub state_allowed : String → Value → Bool
state_allowed operation r = elim (lookup operation result_states) [
  | none ↦ true
  | some states ↦ one_of states (get r "state")
]

-- The response's state is a text.
unfoldable pub operation_result_ok : Platform → String → Value → String → Bool
operation_result_ok node operation r response_state =
    fields_closed operation r
    && (is_undefined (get r "state") || is_text (get r "state") response_state)
    && state_allowed operation r
    && each_field r
    && nested_ok node operation r
  where
    each_field : Value → Bool
    each_field (obj fs) = every (λ (name, v). field_ok node name v) (entries fs)
    each_field _ = false
