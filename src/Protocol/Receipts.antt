-- ===== src/Protocol/Receipts.antt =====
-- The validators of nested results of scripts/host-helper-protocol.mjs: `validateCleanupResult`,
-- `validateSignedAuthority`, `validateEncodedProviderResult` and `validateAnalyzerOutcome`. A test
-- says whether the function returns.
use repo_assessment_kit.Prelude.{
  String, Bool, true, false, not, ◌&&◌, ◌||◌, List, [], ◌∷◌, ◌++◌, every, ◌==◌, includes, leb, eqb,
  if◌then◌else◌,
}
use repo_assessment_kit.Json.{
  Value, arr, obj, keys, items, get, is_text, is_undefined, is_record, one_of,
}
use repo_assessment_kit.Json.Text.{to_text}
use repo_assessment_kit.Protocol.Grammar.{
  Platform, codes, text_length, safe_id, safe_ids, digest, decimal, timestamp, any_text, text_and,
  text_within, strings, array_of, safe_integer_within, max_safe_integer,
}
use repo_assessment_kit.Protocol.Shape.{same_keys}
use repo_assessment_kit.Protocol.ControlPlan.{receipt_ok}

-- The items of an array of texts.
texts : Value → List String
texts (arr vs) = texts_of (items vs)
  where
    texts_of : List Value → List String
    texts_of [] = []
    texts_of (v ∷ rest) = to_text v ∷ texts_of rest
texts _ = []

-- `new Set(names).size === names.length`.
abbrev distinct : List String → Bool
distinct [] = true
distinct (name ∷ names) = not (includes names name) && distinct names

unfoldable pub cleanup_ok : Platform → Value → Bool
unfolding texts
cleanup_ok node v =
    same_keys v ("state" ∷ "removedResourceIds" ∷ "residueIds" ∷ "checkedAt" ∷ [])
    && one_of ("NOT_NEEDED" ∷ "COMPLETE" ∷ "RESIDUE" ∷ []) (get v "state")
    && safe_ids (get v "removedResourceIds")
    && safe_ids (get v "residueIds")
    && timestamp node (get v "checkedAt")
    && distinct (texts (get v "removedResourceIds") ++ texts (get v "residueIds"))

abbrev pub provider_ok : Value → Bool
provider_ok v = one_of ("codex" ∷ "claude-code" ∷ []) v

home_payload_ok : Platform → Value → Bool
home_payload_ok node p =
    same_keys p (
      "schemaVersion" ∷ "providerHomeId" ∷ "engagementId" ∷ "provider" ∷ "authStoreId"
      ∷ "deploymentId" ∷ "issuedAt" ∷ "expiresAt" ∷ "nonce" ∷ [])
    && is_text (get p "schemaVersion") "provider-home-authority/1.0.0"
    && every (λ name. safe_id (get p name))
        ("providerHomeId" ∷ "engagementId" ∷ "authStoreId" ∷ "deploymentId" ∷ "nonce" ∷ [])
    && provider_ok (get p "provider")
    && timestamp node (get p "issuedAt")
    && timestamp node (get p "expiresAt")

destination_ok : Value → Bool
destination_ok d =
    same_keys d ("scheme" ∷ "host" ∷ "port" ∷ [])
    && one_of ("https" ∷ "wss" ∷ []) (get d "scheme")
    && text_and (λ s. leb 1 (text_length s) && every (λ c. not (eqb c b'/')) (codes s))
        (get d "host")
    && safe_integer_within 1 65535 (get d "port")

egress_payload_ok : Platform → Value → Bool
unfolding destination_ok
egress_payload_ok node p =
    same_keys p (
      "schemaVersion" ∷ "jobId" ∷ "provider" ∷ "attemptNumber" ∷ "fenceToken" ∷ "envelopeDigest"
      ∷ "admissionDigest" ∷ "destinations" ∷ "issuedAt" ∷ "expiresAt" ∷ "nonce" ∷ [])
    && is_text (get p "schemaVersion") "1.0.0"
    && safe_id (get p "jobId")
    && provider_ok (get p "provider")
    && safe_integer_within 1 max_safe_integer (get p "attemptNumber")
    && decimal (get p "fenceToken")
    && digest (get p "envelopeDigest")
    && digest (get p "admissionDigest")
    && timestamp node (get p "issuedAt")
    && timestamp node (get p "expiresAt")
    && safe_id (get p "nonce")
    && array_of destination_ok (get p "destinations")

-- The label chooses the payload that is expected.
unfoldable pub signed_authority_ok : Platform → Value → String → Bool
unfolding home_payload_ok egress_payload_ok
signed_authority_ok node v label =
    same_keys v
      ("payload" ∷ "payloadDigest" ∷ "signatureAlgorithm" ∷ "signingKeyId" ∷ "signature" ∷ [])
    && is_record (get v "payload")
    && digest (get v "payloadDigest")
    && is_text (get v "signatureAlgorithm") "Ed25519"
    && safe_id (get v "signingKeyId")
    && text_within 1 8192 (get v "signature")
    && (if label == "provider-home authority"
        then home_payload_ok node (get v "payload")
        else egress_payload_ok node (get v "payload"))

-- The fields of an object, all of them among those allowed.
unfoldable pub only_fields : List String → Value → Bool
only_fields allowed (obj fs) = every (includes allowed) (keys fs)
only_fields allowed _ = false

proposal_ok : Value → Bool
proposal_ok v =
    same_keys v ("encoding" ∷ "bytes" ∷ "receipt" ∷ [])
    && is_text (get v "encoding") "base64"
    && any_text (get v "bytes")
    && receipt_ok (get v "receipt")

unfoldable pub provider_result_ok : Platform → Value → Bool
unfolding only_fields proposal_ok
provider_result_ok node v =
    only_fields
      ("state" ∷ "proposalOutbox" ∷ "operationalLogReceipt" ∷ "providerSessionId" ∷ "modelId"
        ∷ "startedAt" ∷ "endedAt" ∷ "limitationIds" ∷ "helperCleanupReceipt" ∷ [])
      v
    && one_of ("completed" ∷ "budget-exhausted" ∷ "cancelled" ∷ "failed" ∷ []) (get v "state")
    && timestamp node (get v "startedAt")
    && timestamp node (get v "endedAt")
    && safe_ids (get v "limitationIds")
    && receipt_ok (get v "operationalLogReceipt")
    && (is_undefined (get v "proposalOutbox") || proposal_ok (get v "proposalOutbox"))
    && (is_text (get v "state") "completed" || is_undefined (get v "proposalOutbox"))
    && (is_undefined (get v "helperCleanupReceipt")
        || same_keys (get v "helperCleanupReceipt") (
            "state" ∷ "jobId" ∷ "attemptId" ∷ "fenceToken" ∷ "removedResourceIds" ∷ "residueIds"
            ∷ "checkedAt" ∷ "receiptDigest" ∷ []))

-- The name, where the object has the field.
abbrev pub present : Value → String → List String
present v name = if is_undefined (get v name) then [] else name ∷ []

effect_ok : Value → Bool
effect_ok v =
    same_keys v ("domainId" ∷ "status" ∷ "reason" ∷ [])
    && safe_id (get v "domainId")
    && one_of ("pass" ∷ "fail" ∷ "partial" ∷ "blocked" ∷ "not applicable" ∷ "not tested" ∷ [])
        (get v "status")
    && any_text (get v "reason")

unfoldable pub analyzer_outcome_ok : Platform → Value → Bool
unfolding effect_ok
analyzer_outcome_ok node v =
    same_keys v (
      ("schemaVersion" ∷ "jobId" ∷ "runId" ∷ "attemptId" ∷ "fenceToken" ∷ "pluginId"
        ∷ "pluginVersion" ∷ "engineVersion" ∷ "imageDigest" ∷ "configDigest" ∷ "outcome"
        ∷ "rawReceipts" ∷ "exclusions" ∷ "truncations" ∷ "coverageEffects" ∷ "startedAt" ∷ "endedAt"
        ∷ [])
      ++ present v "rulesDigest"
      ++ present v "databaseDigest")
    && is_text (get v "schemaVersion") "1.0.0"
    && every (λ name. safe_id (get v name)) ("jobId" ∷ "runId" ∷ "attemptId" ∷ "pluginId" ∷ [])
    && decimal (get v "fenceToken")
    && digest (get v "imageDigest")
    && digest (get v "configDigest")
    && (is_undefined (get v "rulesDigest") || digest (get v "rulesDigest"))
    && (is_undefined (get v "databaseDigest") || digest (get v "databaseDigest"))
    && one_of
        ("completed-with-findings" ∷ "completed-clean" ∷ "tool-failure" ∷ "timeout"
          ∷ "policy-rejection" ∷ "cancelled" ∷ [])
        (get v "outcome")
    && strings (get v "exclusions")
    && strings (get v "truncations")
    && timestamp node (get v "startedAt")
    && timestamp node (get v "endedAt")
    && array_of receipt_ok (get v "rawReceipts")
    && array_of effect_ok (get v "coverageEffects")
