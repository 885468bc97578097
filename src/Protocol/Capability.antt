-- ===== src/Protocol/Capability.antt =====
-- `validateRuntimeCapability` of scripts/host-helper-protocol.mjs, as the test whether it returns.
use repo_assessment_kit.Prelude.{Bool, ◌&&◌, ◌||◌, [], ◌∷◌, ◌++◌, every}
use repo_assessment_kit.Json.{Value, get, is_text, is_undefined, one_of}
use repo_assessment_kit.Protocol.Grammar.{safe_id, safe_ids, any_text, strings, array_of}
use repo_assessment_kit.Protocol.Shape.{same_keys}
use repo_assessment_kit.Protocol.Receipts.{present}

-- The bodies of the three loops.
candidate_ok : Value → Bool
candidate_ok v =
    same_keys v ("candidateId" ∷ "kind" ∷ "relPaths" ∷ "requiredCapabilities" ∷ [])
    && safe_id (get v "candidateId")
    && one_of ("compose" ∷ "dockerfile" ∷ "other" ∷ []) (get v "kind")
    && strings (get v "relPaths")
    && safe_ids (get v "requiredCapabilities")

policy_check_ok : Value → Bool
policy_check_ok v =
    same_keys v ("checkId" ∷ "outcome" ∷ "reasonCodes" ∷ "evidenceOccurrenceIds" ∷ [])
    && safe_id (get v "checkId")
    && one_of ("accepted" ∷ "rejected" ∷ []) (get v "outcome")
    && safe_ids (get v "reasonCodes")
    && safe_ids (get v "evidenceOccurrenceIds")

blocking_reason_ok : Value → Bool
blocking_reason_ok v =
    same_keys v ("code" ∷ "message" ∷ "affectedControlIds" ∷ "followUp" ∷ [])
    && safe_id (get v "code")
    && any_text (get v "message")
    && safe_ids (get v "affectedControlIds")
    && any_text (get v "followUp")

-- `browser` may have a version, which is not checked.
unfoldable pub runtime_capability_ok : Value → Bool
unfolding candidate_ok policy_check_ok blocking_reason_ok
runtime_capability_ok v =
    same_keys v (
      ("schemaVersion" ∷ "runtimeCapabilityId" ∷ "runId" ∷ "snapshotId" ∷ "state"
        ∷ "nativeArchitecture" ∷ "candidates" ∷ "policyChecks" ∷ "browser" ∷ "passiveScan"
        ∷ "attemptedSafeSteps" ∷ "blockingReasons" ∷ "approvalIds" ∷ "limitsProfileId" ∷ [])
      ++ present v "attestations"
      ++ present v "selectedCandidateId")
    && is_text (get v "schemaVersion") "1.0.0"
    && every (λ name. safe_id (get v name))
        ("runtimeCapabilityId" ∷ "runId" ∷ "snapshotId" ∷ "limitsProfileId" ∷ [])
    && one_of ("capable" ∷ "blocked" ∷ "not applicable" ∷ []) (get v "state")
    && one_of ("amd64" ∷ "arm64" ∷ []) (get v "nativeArchitecture")
    && safe_ids (get v "approvalIds")
    && strings (get v "attemptedSafeSteps")
    && (is_undefined (get v "selectedCandidateId") || safe_id (get v "selectedCandidateId"))
    && array_of candidate_ok (get v "candidates")
    && array_of policy_check_ok (get v "policyChecks")
    && same_keys (get v "browser") ("chromium" ∷ present (get v "browser") "playwrightVersion")
    && same_keys (get v "passiveScan") ("kind" ∷ "state" ∷ [])
    && one_of ("available" ∷ "blocked" ∷ []) (get (get v "browser") "chromium")
    && one_of ("zap-baseline" ∷ "rak-passive-http" ∷ "none" ∷ []) (get (get v "passiveScan") "kind")
    && any_text (get (get v "passiveScan") "state")
    && array_of blocking_reason_ok (get v "blockingReasons")
