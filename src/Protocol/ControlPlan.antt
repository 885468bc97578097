-- ===== src/Protocol/ControlPlan.antt =====
-- `validateArtifactReceipt` and `validateSignedControlPlan` of scripts/host-helper-protocol.mjs. Each
-- either returns or fails with AUTH_FAILED, so each is a test.
use repo_assessment_kit.Prelude.{
  String, Bool, true, false, not, ◌&&◌, ◌||◌, List, [], ◌∷◌, ◌++◌, every, if◌then◌else◌,
}
use repo_assessment_kit.Json.{Value, bool, get, is_text, is_undefined, one_of}
use repo_assessment_kit.Protocol.Grammar.{
  Platform, safe_id, safe_ids, digest, decimal, timestamp, any_text, text_within, strings, array_of,
  safe_integer_within, max_safe_integer,
}
use repo_assessment_kit.Protocol.Shape.{same_keys}

-- `value === true` and `value === false`.
abbrev pub is_bool : Bool → Value → Bool
is_bool true (bool b) = b
is_bool false (bool b) = not b
is_bool _ _ = false

unfoldable pub receipt_ok : Value → Bool
receipt_ok v =
    same_keys v ("receiptId" ∷ "outboxName" ∷ "mediaType" ∷ "byteLength" ∷ "sha256" ∷ "closed" ∷ [])
    && safe_id (get v "receiptId")
    && text_within 1 255 (get v "outboxName")
    && text_within 1 255 (get v "mediaType")
    && decimal (get v "byteLength")
    && digest (get v "sha256")
    && is_bool true (get v "closed")

-- `validateOrigin`.
unfoldable pub origin_ok : Value → Bool
origin_ok origin =
    same_keys origin ("scheme" ∷ "host" ∷ "port" ∷ [])
    && one_of ("http" ∷ "https" ∷ []) (get origin "scheme")
    && text_within 1 253 (get origin "host")
    && safe_integer_within 1 65535 (get origin "port")

-- The optional fields that a control has: the pseudonyms that it defines, and both secret fields as
-- soon as it defines one of them.
optional_name : Value → String → List String
optional_name control name = if is_undefined (get control name) then [] else name ∷ []

optional_fields : Value → List String
unfolding optional_name
optional_fields control =
    optional_name control "principalPseudonym"
    ++ optional_name control "rolePseudonym"
    ++ optional_name control "tenantPseudonym"
    ++ (if is_undefined (get control "secretPurpose")
          && is_undefined (get control "secretRecipient")
        then []
        else "secretPurpose" ∷ "secretRecipient" ∷ [])

budgets_ok : Value → Bool
budgets_ok budgets =
    same_keys budgets
      ("requests" ∷ "bytes" ∷ "requestsPerSecond" ∷ "wallSeconds" ∷ "redirects" ∷ [])
    && safe_integer_within 0 max_safe_integer (get budgets "requests")
    && decimal (get budgets "bytes")
    && safe_integer_within 0 max_safe_integer (get budgets "requestsPerSecond")
    && safe_integer_within 0 max_safe_integer (get budgets "wallSeconds")
    && safe_integer_within 0 max_safe_integer (get budgets "redirects")

-- The body of the loop over `payload.controls`.
unfoldable pub control_ok : Value → Bool
unfolding optional_fields budgets_ok
control_ok control =
    same_keys control (
      ("plannedControlId" ∷ "safetyClass" ∷ "internalOrigin" ∷ "method" ∷ "routeTemplate" ∷ [])
      ++ optional_fields control
      ++ ("fixtureIds" ∷ "expectedSideEffects" ∷ "budgets" ∷ "permittedOutputClass"
          ∷ "abortTriggers" ∷ "cleanupAssertion" ∷ "coverageOnDenyOrInterruption" ∷ []))
    && origin_ok (get control "internalOrigin")
    && budgets_ok (get control "budgets")
    && safe_id (get control "plannedControlId")
    && one_of
        ("P0-passive" ∷ "P1-anonymous-read" ∷ "P2-authenticated-read" ∷ "P3-session-bootstrap" ∷ [])
        (get control "safetyClass")
    && one_of ("GET" ∷ "HEAD" ∷ "OPTIONS" ∷ "POST" ∷ []) (get control "method")
    && any_text (get control "routeTemplate")
    && safe_ids (get control "fixtureIds")
    && strings (get control "expectedSideEffects")
    && one_of ("O0" ∷ "O2" ∷ "O3" ∷ []) (get control "permittedOutputClass")
    && strings (get control "abortTriggers")
    && any_text (get control "cleanupAssertion")
    && one_of ("blocked" ∷ "not tested" ∷ "partial" ∷ [])
        (get control "coverageOnDenyOrInterruption")
    && (is_undefined (get control "secretPurpose")
        || one_of ("target-service" ∷ "probe" ∷ []) (get control "secretPurpose"))
    && (is_undefined (get control "secretRecipient") || safe_id (get control "secretRecipient"))

-- The authority of the plan, before its origins and controls.
authority_ok : Platform → Value → Value → Bool
authority_ok node plan payload =
    same_keys payload (
      "schemaVersion" ∷ "controlPlanId" ∷ "runId" ∷ "runtimeId" ∷ "runtimeCreationNonce"
      ∷ "attemptId" ∷ "fenceToken" ∷ "snapshotId" ∷ "compiledPlanId" ∷ "compiledPlanDigest"
      ∷ "selectedProfileIds" ∷ "approvalIds" ∷ "authorityDigest" ∷ "internalOrigins" ∷ "controls"
      ∷ "probeProfileId" ∷ "issuedAt" ∷ "expiresAt" ∷ "nonce" ∷ [])
    && is_text (get payload "schemaVersion") "1.0.0"
    && every (λ name. safe_id (get payload name))
        ("controlPlanId" ∷ "runId" ∷ "runtimeId" ∷ "runtimeCreationNonce" ∷ "attemptId"
          ∷ "snapshotId" ∷ "compiledPlanId" ∷ "probeProfileId" ∷ "nonce" ∷ [])
    && decimal (get payload "fenceToken")
    && digest (get payload "compiledPlanDigest")
    && digest (get payload "authorityDigest")
    && safe_ids (get payload "selectedProfileIds")
    && safe_ids (get payload "approvalIds")
    && timestamp node (get payload "issuedAt")
    && timestamp node (get payload "expiresAt")
    && is_text (get plan "signatureAlgorithm") "Ed25519"
    && safe_id (get plan "signingKeyId")
    && digest (get plan "payloadDigest")
    && text_within 1 8192 (get plan "signature")

unfoldable pub control_plan_ok : Platform → Value → Bool
unfolding authority_ok
control_plan_ok node plan =
    same_keys plan
      ("payload" ∷ "payloadDigest" ∷ "signatureAlgorithm" ∷ "signingKeyId" ∷ "signature" ∷ [])
    && authority_ok node plan (get plan "payload")
    && array_of origin_ok (get (get plan "payload") "internalOrigins")
    && array_of control_ok (get (get plan "payload") "controls")
