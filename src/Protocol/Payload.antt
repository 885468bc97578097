-- ===== src/Protocol/Payload.antt =====
-- `validateHostOperationPayload` of scripts/host-helper-protocol.mjs. A case of its `switch` is a
-- row: the operation, the case's own check, and the lists of typed fields that it fills. Every
-- failing check throws the same code, so that their order is not observable. Both callers hand over
-- a payload that is a record: on `undefined` or `null` the source would throw a `TypeError`.
pub mod Registered
use repo_assessment_kit.Prelude.{
  ℕ, leb, eqb, String, Bool, true, false, not, ◌&&◌, ◌||◌, Option, none, some, List, [], ◌∷◌, ◌++◌,
  every, ◌==◌, includes, length, ltb, if◌then◌else◌,
}
use repo_assessment_kit.Prelude.Dict.{lookup}
use repo_assessment_kit.Prelude.Result.{
  Result, ok, throws, require, auth_failed, unknown_registered_id,
}
use repo_assessment_kit.Json.{Value, str, num, natural, get, is_text, is_undefined, one_of}
use repo_assessment_kit.Json.Text.{to_text}
use repo_assessment_kit.Protocol.Grammar.{
  Platform, Url, codes, text_length, matches_hex64, matches_image, safe_id, safe_ids, digest,
  decimal, timestamp, boolean, any_text, text_and, text_within, safe_integer_within,
  max_safe_integer, array_of,
}
use repo_assessment_kit.Protocol.Shape.{same_keys}
use repo_assessment_kit.Protocol.ControlPlan.{is_bool, receipt_ok, control_plan_ok}

-- What a case has found, and `idFields`, `idListFields`, `digestFields`, `timestampFields`,
-- `decimalFields` and `booleanFields` as it leaves them.
pub record Case : Type 0 where
  pub check : Bool
  pub ids : List String
  pub id_lists : List String
  pub digests : List String
  pub timestamps : List String
  pub decimals : List String
  pub booleans : List String

abbrev plain : Case
plain = record {
  check = true;
  ids = [];
  id_lists = [];
  digests = [];
  timestamps = [];
  decimals = [];
  booleans = [];
}

abbrev ids_only : List String → Case
ids_only names = record plain { ids = names }

abbrev providers : List String
providers = "codex" ∷ "claude-code" ∷ []

abbrev architectures : List String
architectures = "amd64" ∷ "arm64" ∷ []

abbrev purposes : List String
purposes = "target-service" ∷ "probe" ∷ []

image_ok : Value → Bool
image_ok v = text_and (λ s. matches_image (codes s)) v

-- `value === 1`.
is_one : Value → Bool
is_one v = safe_integer_within 1 1 v

-- `/^(?:\.\.|\.|)$/` on a segment, and `path.split("/")`, over code points.
plain_segment : List ℕ → Bool
plain_segment [] = false
plain_segment (c ∷ []) = not (eqb c b'.')
plain_segment (c ∷ d ∷ []) = not (eqb c b'.' && eqb d b'.')
plain_segment _ = true

split_slash : List ℕ → List ℕ → List (List ℕ)
split_slash segment [] = segment ∷ []
split_slash segment (c ∷ cs) =
    let closed = segment ∷ split_slash [] cs in
    let longer = split_slash (segment ++ c ∷ []) cs in if eqb c b'/' then closed else longer

starts_with_slash : List ℕ → Bool
starts_with_slash [] = false
starts_with_slash (c ∷ cs) = eqb c b'/'

-- One item of `repositoryRelativePaths`.
unfoldable pub relative_path : String → Bool
unfolding plain_segment split_slash starts_with_slash
relative_path s =
    leb 1 (text_length s)
    && leb (text_length s) 4096
    && not (starts_with_slash (codes s))
    && every (λ c. not (eqb c 92) && not (eqb c 0)) (codes s)
    && every plain_segment (split_slash [] (codes s))

unfoldable pub relative_paths : Value → Bool
unfolding relative_path
relative_paths v = array_of (text_and relative_path) v

-- An item of `internalOrigins`.
origin_text_ok : Platform → String → Bool
origin_text_ok node s = leb (text_length s) 2048 && elim (node.parse_url s) [
  | none ↦ false
  | some url ↦
      includes ("http:" ∷ "https:" ∷ []) url.protocol
      && url.origin == s
      && url.username == ""
      && url.password == ""
]

source_check : Value → Value → Bool
source_check payload source =
    same_keys source (
      if is_undefined (get source "ref")
      then "kind" ∷ "acquisitionProfileId" ∷ "url" ∷ []
      else "kind" ∷ "acquisitionProfileId" ∷ "url" ∷ "ref" ∷ [])
    && is_text (get source "kind") "ssh-git"
    && safe_id (get source "acquisitionProfileId")
    && text_within 1 2048 (get source "url")
    && (is_undefined (get source "ref") || text_within 0 1024 (get source "ref"))
    && is_text (get payload "snapshotMode") "commit-only"
    && is_bool false (get payload "acquireSubmodules")
    && is_bool false (get payload "acquireLfs")

source_cases : Value → List (String × Case)
unfolding source_check
source_cases p =
    (
      "source.acquire",
      record plain {
        check = source_check p (get p "source");
        ids = "limitsProfileId" ∷ [];
        id_lists = "approvalIds" ∷ [];
      },
    )
    ∷ ("source.status", ids_only ("sourceCommandId" ∷ []))
    ∷ ("source.release", ids_only ("sourceCommandId" ∷ []))
    ∷ (
      "source.cancel",
      record plain { check = text_within 0 1024 (get p "reason"); ids = "sourceCommandId" ∷ [] },
    )
    ∷ (
      "source.finalize",
      record plain {
        ids = "sourceCommandId" ∷ "expectedSnapshotId" ∷ [];
        digests = "expectedManifestDigest" ∷ "expectedArchiveDigest" ∷ [];
      },
    )
    ∷ []

analyzer_cases : Value → List (String × Case)
analyzer_cases p =
    (
      "analyzer.start",
      record plain {
        ids = "jobId" ∷ "snapshotId" ∷ "pluginId" ∷ "configProfileId" ∷ "limitsProfileId" ∷ [];
        decimals = "outputQuotaBytes" ∷ [];
      },
    )
    ∷ ("analyzer.status", ids_only ("jobId" ∷ []))
    ∷ ("analyzer.pause", record plain { ids = "jobId" ∷ []; timestamps = "deadlineAt" ∷ [] })
    ∷ (
      "analyzer.cancel",
      record plain {
        check = text_within 0 1024 (get p "reason");
        ids = "jobId" ∷ [];
        timestamps = "deadlineAt" ∷ [];
      },
    )
    ∷ (
      "analyzer.finalize",
      record plain { check = array_of receipt_ok (get p "expectedReceipts"); ids = "jobId" ∷ [] },
    )
    ∷ []

vm_cases : Platform → Value → List (String × Case)
vm_cases node p =
    (
      "vm.preflight",
      record plain {
        check = one_of architectures (get p "nativeArchitecture");
        ids = "vmProfileId" ∷ [];
        digests = "guestImageDigest" ∷ [];
      },
    )
    ∷ (
      "vm.create",
      record plain {
        check = one_of architectures (get p "nativeArchitecture");
        ids = "runtimeId" ∷ "snapshotId" ∷ "vmProfileId" ∷ [];
        digests = "guestImageDigest" ∷ [];
      },
    )
    ∷ (
      "vm.stageSnapshot",
      record plain {
        ids = "runtimeId" ∷ "snapshotId" ∷ [];
        digests = "archiveDigest" ∷ "manifestDigest" ∷ [];
      },
    )
    ∷ (
      "vm.compile",
      record plain {
        check = relative_paths (get p "candidateRelPaths");
        ids = "runtimeId" ∷ "policyId" ∷ [];
        id_lists = "approvalIds" ∷ [];
      },
    )
    ∷ ("vm.acquireBuildInputs", ids_only ("runtimeId" ∷ "compiledPlanId" ∷ "approvalId" ∷ []))
    ∷ ("vm.build", ids_only ("runtimeId" ∷ "compiledPlanId" ∷ "limitsProfileId" ∷ []))
    ∷ (
      "vm.start",
      record plain {
        ids = "runtimeId" ∷ "compiledPlanId" ∷ [];
        id_lists = "secretEnvelopeIds" ∷ [];
      },
    )
    ∷ (
      "vm.probe",
      record plain {
        check = control_plan_ok node (get p "signedControlPlan");
        ids = "runtimeId" ∷ [];
        id_lists = "secretEnvelopeIds" ∷ [];
      },
    )
    ∷ (
      "vm.collect",
      record plain {
        ids = "runtimeId" ∷ [];
        id_lists = "declaredArtifactIds" ∷ [];
        decimals = "totalByteLimit" ∷ [];
      },
    )
    ∷ ("vm.status", ids_only ("runtimeId" ∷ []))
    ∷ ("vm.heartbeat", ids_only ("runtimeId" ∷ []))
    ∷ ("vm.pause", record plain { ids = "runtimeId" ∷ []; timestamps = "deadlineAt" ∷ [] })
    ∷ ("vm.stop", record plain { ids = "runtimeId" ∷ []; timestamps = "deadlineAt" ∷ [] })
    ∷ ("vm.resume", ids_only ("runtimeId" ∷ "compiledPlanId" ∷ []))
    ∷ (
      "vm.destroy",
      record plain { ids = "runtimeId" ∷ []; booleans = "preserveDeclaredReceipts" ∷ [] },
    )
    ∷ (
      "vm.emergencyStop",
      record plain { check = text_within 0 128 (get p "reason"); ids = "runtimeId" ∷ [] },
    )
    ∷ []

provider_cases : Value → List (String × Case)
unfolding image_ok
provider_cases p =
    (
      "provider.preflight",
      record plain {
        check = one_of providers (get p "provider") && image_ok (get p "immutableImageReference");
        digests =
            "releaseAuthorityDigest" ∷ "providerHomeAuthorityDigest" ∷ "networkPolicyDigest"
            ∷ "outputSchemaDigest" ∷ [];
      },
    )
    ∷ (
      "provider.stage",
      record plain {
        check = one_of providers (get p "provider") && any_text (get p "taskBytesBase64");
        ids = "jobId" ∷ [];
        digests =
            "envelopeDigest" ∷ "taskBytesDigest" ∷ "outputSchemaDigest"
            ∷ "providerHomeAuthorityDigest" ∷ [];
      },
    )
    ∷ (
      "provider.execute",
      record plain {
        check =
            one_of providers (get p "provider")
            && image_ok (get p "immutableImageReference")
            && safe_integer_within 1 max_safe_integer (get p "wallSeconds")
            && safe_integer_within 1 max_safe_integer (get p "outputBytes");
        ids = "jobId" ∷ "stagedTaskId" ∷ [];
        digests = "networkAttestationDigest" ∷ [];
        timestamps = "deadlineAt" ∷ [];
      },
    )
    ∷ (
      "provider.cancel",
      record plain {
        check =
            one_of
              ("CANCELLED_BY_CALLER" ∷ "DEADLINE_EXPIRED" ∷ "FENCE_CHANGED" ∷ "EMERGENCY_STOP" ∷ [])
              (get p "reasonCode");
        ids = "jobId" ∷ [];
      },
    )
    ∷ (
      "provider.cleanup",
      record plain { ids = "jobId" ∷ []; id_lists = "preserveReceiptIds" ∷ [] },
    )
    ∷ ("provider.status", ids_only ("jobId" ∷ []))
    ∷ []

-- `/^[a-f0-9]{64}$/u.test(nonce)` coerces its argument to a text.
secret_cases : Value → List (String × Case)
unfolding is_one
secret_cases p =
    (
      "secret.store",
      record plain {
        check =
            one_of purposes (get p "purpose")
            && is_one (get p "maxUses")
            && text_within 16 65536 (get p "sealedValue");
        ids = "handleId" ∷ "recipient" ∷ [];
        digests = "approvalDigest" ∷ [];
        timestamps = "expiresAt" ∷ [];
      },
    )
    ∷ (
      "secret.consume",
      record plain {
        check =
            one_of purposes (get p "purpose")
            && matches_hex64 (codes (to_text (get p "runtimeCreationNonce")));
        ids = "handleId" ∷ "recipient" ∷ [];
      },
    )
    ∷ (
      "secret.revoke",
      record plain { check = text_within 0 128 (get p "reasonCode"); ids = "handleId" ∷ [] },
    )
    ∷ []

guard_cases : Platform → Value → List (String × Case)
unfolding origin_text_ok
guard_cases node p =
    (
      "request-guard.admit",
      record plain {
        check = control_plan_ok node (get p "signedControlPlan");
        ids = "runtimeId" ∷ [];
        digests = "compiledPlanDigest" ∷ [];
      },
    )
    ∷ (
      "request-guard.issue",
      record plain {
        check = array_of (text_and (origin_text_ok node)) (get p "internalOrigins");
        ids =
            "runtimeId" ∷ "runtimeCreationNonce" ∷ "snapshotId" ∷ "compiledPlanId"
            ∷ "probeProfileId" ∷ [];
        id_lists = "selectedProfileIds" ∷ "approvalIds" ∷ "plannedControlIds" ∷ [];
        digests = "compiledPlanDigest" ∷ [];
        timestamps = "requestedExpiresAt" ∷ [];
      },
    )
    ∷ (
      "request-guard.revoke",
      record plain {
        check = text_within 0 128 (get p "reasonCode");
        ids = "runtimeId" ∷ [];
        digests = "controlPlanDigest" ∷ [];
      },
    )
    ∷ ("reconcile.list", record plain { ids = "installationId" ∷ []; id_lists = "runIds" ∷ [] })
    ∷ []

-- The cases of the `switch`.
unfoldable pub payload_cases : Platform → Value → List (String × Case)
unfolding source_cases analyzer_cases vm_cases provider_cases secret_cases guard_cases
payload_cases node p =
    source_cases p
    ++ (analyzer_cases p
        ++ (vm_cases node p ++ (provider_cases p ++ (secret_cases p ++ guard_cases node p))))

-- The last test of the function, over the lists that the case has filled.
unfoldable pub fields_ok : Platform → Value → Case → Bool
fields_ok node p c =
    every (λ name. safe_id (get p name)) c.ids
    && every (λ name. safe_ids (get p name)) c.id_lists
    && every (λ name. digest (get p name)) c.digests
    && every (λ name. timestamp node (get p name)) c.timestamps
    && every (λ name. decimal (get p name)) c.decimals
    && every (λ name. boolean (get p name)) c.booleans

unfoldable pub validate_operation_payload : Platform → Value → Value → Result (Unit {0})
unfolding payload_cases fields_ok lookup
validate_operation_payload node (str operation) p = elim (lookup operation (payload_cases node p)) [
  | none ↦ throws unknown_registered_id
  | some c ↦ require (c.check && fields_ok node p c) auth_failed
]
validate_operation_payload node _ p = throws unknown_registered_id
