-- ===== src/Protocol/ResultRegistry.antt =====
-- Tables of scripts/host-helper-protocol.mjs: for each operation the fields of its result and the
-- states that its result may have.
use repo_assessment_kit.Prelude.{String, List, [], ◌∷◌}

pub record ResultKeys : Type 0 where
  pub required : List String
  pub optional : List String

-- `OPERATION_RESULT_KEYS`.
unfoldable pub operation_result_keys : List (String × ResultKeys)
operation_result_keys =
    (
      "provider.preflight",
      record {
        required =
            "state" ∷ "providerHomeId" ∷ "providerHomeAuthority" ∷ "immutableImageReference"
            ∷ "providerEgressAttestation" ∷ "networkPolicyDigest" ∷ "releaseAuthorityDigest"
            ∷ "outputSchemaDigest" ∷ "versions" ∷ [];
        optional = [];
      },
    )
    ∷ ("provider.stage", record { required = "state" ∷ "stagedTaskId" ∷ []; optional = [] })
    ∷ ("provider.execute", record { required = "state" ∷ "providerResult" ∷ []; optional = [] })
    ∷ ("provider.cancel", record { required = "state" ∷ "cleanup" ∷ []; optional = [] })
    ∷ ("provider.cleanup", record { required = "state" ∷ "cleanup" ∷ []; optional = [] })
    ∷ ("provider.status", record { required = "state" ∷ "phase" ∷ "cleanup" ∷ []; optional = [] })
    ∷ (
      "source.acquire",
      record {
        required = "sourceCommandId" ∷ "state" ∷ "sanitizedLocator" ∷ "limitationCodes" ∷ [];
        optional =
            "resolvedCommitSha" ∷ "snapshotId" ∷ "manifestDigest" ∷ "archiveDigest"
            ∷ "beforeSourceDigest" ∷ "afterSourceDigest" ∷ "creationNonce" ∷ [];
      },
    )
    ∷ (
      "source.status",
      record {
        required = "sourceCommandId" ∷ "state" ∷ "lastCheckpoint" ∷ "progress" ∷ "heartbeatAt" ∷ [];
        optional = [];
      },
    )
    ∷ (
      "source.cancel",
      record { required = "sourceCommandId" ∷ "state" ∷ "cleanup" ∷ []; optional = [] },
    )
    ∷ (
      "source.finalize",
      record {
        required =
            "sourceCommandId" ∷ "state" ∷ "snapshotId" ∷ "manifestDigest" ∷ "archiveDigest"
            ∷ "receipt" ∷ [];
        optional = [];
      },
    )
    ∷ (
      "source.release",
      record { required = "sourceCommandId" ∷ "state" ∷ "cleanup" ∷ []; optional = [] },
    )
    ∷ ("analyzer.start", record { required = "jobId" ∷ "workerId" ∷ "state" ∷ []; optional = [] })
    ∷ (
      "analyzer.status",
      record {
        required = "jobId" ∷ "workerId" ∷ "state" ∷ "heartbeatAt" ∷ "outputBytes" ∷ [];
        optional = "checkpointId" ∷ [];
      },
    )
    ∷ (
      "analyzer.pause",
      record {
        required = "jobId" ∷ "state" ∷ "closedReceipts" ∷ [];
        optional = "checkpointId" ∷ [];
      },
    )
    ∷ ("analyzer.cancel", record { required = "jobId" ∷ "state" ∷ "cleanup" ∷ []; optional = [] })
    ∷ (
      "analyzer.finalize",
      record { required = "jobId" ∷ "state" ∷ "outcome" ∷ "receipts" ∷ []; optional = [] },
    )
    ∷ ("vm.preflight", record { required = "state" ∷ "capability" ∷ []; optional = [] })
    ∷ (
      "vm.create",
      record {
        required =
            "runtimeId" ∷ "workerInstanceId" ∷ "creationNonce" ∷ "state" ∷ "brokerPublicKey" ∷ [];
        optional = [];
      },
    )
    ∷ (
      "vm.stageSnapshot",
      record {
        required =
            "runtimeId" ∷ "state" ∷ "snapshotId" ∷ "verifiedManifestDigest"
            ∷ "verifiedArchiveDigest" ∷ [];
        optional = [];
      },
    )
    ∷ (
      "vm.compile",
      record {
        required = "runtimeId" ∷ "state" ∷ "policyCheckIds" ∷ "rejectionCodes" ∷ [];
        optional = "compiledPlanId" ∷ "compiledPlanDigest" ∷ [];
      },
    )
    ∷ (
      "vm.acquireBuildInputs",
      record {
        required = "runtimeId" ∷ "state" ∷ "fetchedDigests" ∷ "egressAuditReceipt" ∷ [];
        optional = [];
      },
    )
    ∷ (
      "vm.build",
      record {
        required = "runtimeId" ∷ "state" ∷ "imageDigests" ∷ "buildReceipt" ∷ "limitationCodes" ∷ [];
        optional = [];
      },
    )
    ∷ (
      "vm.start",
      record {
        required =
            "runtimeId" ∷ "state" ∷ "serviceIds" ∷ "internalOrigins" ∷ "consumedEnvelopeIds" ∷ [];
        optional = [];
      },
    )
    ∷ (
      "vm.probe",
      record {
        required =
            "runtimeId" ∷ "state" ∷ "controlPlanId" ∷ "controlPlanDigest" ∷ "controlResultReceipts"
            ∷ [];
        optional = [];
      },
    )
    ∷ (
      "vm.collect",
      record {
        required = "runtimeId" ∷ "state" ∷ "receipts" ∷ "totalBytes" ∷ "rejectedArtifactIds" ∷ [];
        optional = [];
      },
    )
    ∷ (
      "vm.status",
      record {
        required =
            "runtimeId" ∷ "state" ∷ "phase" ∷ "heartbeatAt" ∷ "activeServiceIds" ∷ "cleanup" ∷ [];
        optional = "checkpointId" ∷ [];
      },
    )
    ∷ (
      "vm.heartbeat",
      record { required = "runtimeId" ∷ "state" ∷ "heartbeatAt" ∷ []; optional = [] },
    )
    ∷ (
      "vm.pause",
      record { required = "runtimeId" ∷ "state" ∷ "cleanup" ∷ []; optional = "checkpointId" ∷ [] },
    )
    ∷ (
      "vm.resume",
      record { required = "runtimeId" ∷ "state" ∷ []; optional = "resumedCheckpointId" ∷ [] },
    )
    ∷ ("vm.stop", record { required = "runtimeId" ∷ "state" ∷ "cleanup" ∷ []; optional = [] })
    ∷ ("vm.destroy", record { required = "runtimeId" ∷ "state" ∷ "cleanup" ∷ []; optional = [] })
    ∷ (
      "vm.emergencyStop",
      record { required = "runtimeId" ∷ "state" ∷ "cleanup" ∷ []; optional = [] },
    )
    ∷ (
      "reconcile.list",
      record {
        required = "installationId" ∷ "resources" ∷ [];
        optional = "state" ∷ "reconciledCommands" ∷ [];
      },
    )
    ∷ (
      "secret.store",
      record {
        required = "state" ∷ "handleId" ∷ "expiresAt" ∷ "remainingUses" ∷ [];
        optional = [];
      },
    )
    ∷ (
      "secret.consume",
      record {
        required = "state" ∷ "handleId" ∷ "consumedAt" ∷ "remainingUses" ∷ [];
        optional = [];
      },
    )
    ∷ (
      "secret.revoke",
      record { required = "state" ∷ "handleId" ∷ "revokedAt" ∷ []; optional = [] },
    )
    ∷ (
      "request-guard.admit",
      record {
        required = "state" ∷ "runtimeId" ∷ "controlPlanDigest" ∷ "admittedAt" ∷ [];
        optional = [];
      },
    )
    ∷ (
      "request-guard.issue",
      record {
        required =
            "state" ∷ "runtimeId" ∷ "controlPlanId" ∷ "controlPlanDigest" ∷ "signedControlPlan"
            ∷ "issuedAt" ∷ "expiresAt" ∷ [];
        optional = [];
      },
    )
    ∷ (
      "request-guard.revoke",
      record {
        required = "state" ∷ "runtimeId" ∷ "controlPlanDigest" ∷ "revokedAt" ∷ [];
        optional = [];
      },
    )
    ∷ []

-- `RESULT_STATES`.
unfoldable pub result_states : List (String × List String)
result_states =
    ("source.cancel", "CANCELLED" ∷ "FAILED" ∷ [])
    ∷ ("source.finalize", "SUCCEEDED" ∷ [])
    ∷ ("source.release", "SUCCEEDED" ∷ [])
    ∷ ("analyzer.start", "ACCEPTED" ∷ "RUNNING" ∷ [])
    ∷ ("analyzer.pause", "CHECKPOINTED" ∷ "CANCELLED" ∷ [])
    ∷ ("analyzer.cancel", "CANCELLED" ∷ "FAILED" ∷ [])
    ∷ ("analyzer.finalize", "SUCCEEDED" ∷ [])
    ∷ ("vm.preflight", "SUCCEEDED" ∷ "REJECTED" ∷ [])
    ∷ ("vm.create", "ACCEPTED" ∷ "RUNNING" ∷ [])
    ∷ ("vm.stageSnapshot", "SUCCEEDED" ∷ [])
    ∷ ("vm.compile", "SUCCEEDED" ∷ "REJECTED" ∷ [])
    ∷ ("vm.acquireBuildInputs", "SUCCEEDED" ∷ "REJECTED" ∷ [])
    ∷ ("vm.build", "SUCCEEDED" ∷ "FAILED" ∷ [])
    ∷ ("vm.start", "SUCCEEDED" ∷ "FAILED" ∷ [])
    ∷ ("vm.probe", "SUCCEEDED" ∷ "FAILED" ∷ [])
    ∷ ("vm.collect", "SUCCEEDED" ∷ [])
    ∷ ("vm.pause", "PAUSED" ∷ "FAILED" ∷ [])
    ∷ ("vm.resume", "RUNNING" ∷ "FAILED" ∷ [])
    ∷ ("vm.stop", "SUCCEEDED" ∷ "FAILED" ∷ [])
    ∷ ("vm.destroy", "SUCCEEDED" ∷ "FAILED" ∷ [])
    ∷ ("vm.emergencyStop", "SUCCEEDED" ∷ "FAILED" ∷ [])
    ∷ ("request-guard.issue", "SUCCEEDED" ∷ [])
    ∷ []
