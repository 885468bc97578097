-- ===== src/Protocol/Registry.antt =====
-- Tables of scripts/host-helper-protocol.mjs: the fields of a request, and for each operation the
-- fields of its payload.
use repo_assessment_kit.Prelude.{String, List, [], ◌∷◌}

-- `REQUEST_KEYS`.
unfoldable pub request_keys : List String
request_keys =
    "protocolVersion" ∷ "installationId" ∷ "requestId" ∷ "commandId" ∷ "runId" ∷ "attemptId"
    ∷ "fenceToken" ∷ "idempotencyKey" ∷ "counter" ∷ "nonce" ∷ "issuedAt" ∷ "expiresAt" ∷ "operation"
    ∷ "payload" ∷ "requestDigest" ∷ "mac" ∷ []

-- `OPERATION_PAYLOAD_KEYS`.
unfoldable pub operation_payload_keys : List (String × List String)
operation_payload_keys =
    (
      "source.acquire",
      "source" ∷ "snapshotMode" ∷ "acquireSubmodules" ∷ "acquireLfs" ∷ "approvalIds"
          ∷ "limitsProfileId" ∷ [],
    )
    ∷ ("source.status", "sourceCommandId" ∷ [])
    ∷ ("source.cancel", "sourceCommandId" ∷ "reason" ∷ [])
    ∷ (
      "source.finalize",
      "sourceCommandId" ∷ "expectedSnapshotId" ∷ "expectedManifestDigest" ∷ "expectedArchiveDigest"
          ∷ [],
    )
    ∷ ("source.release", "sourceCommandId" ∷ [])
    ∷ (
      "analyzer.start",
      "jobId" ∷ "snapshotId" ∷ "pluginId" ∷ "configProfileId" ∷ "limitsProfileId"
          ∷ "outputQuotaBytes" ∷ [],
    )
    ∷ ("analyzer.status", "jobId" ∷ [])
    ∷ ("analyzer.pause", "jobId" ∷ "deadlineAt" ∷ [])
    ∷ ("analyzer.cancel", "jobId" ∷ "reason" ∷ "deadlineAt" ∷ [])
    ∷ ("analyzer.finalize", "jobId" ∷ "expectedReceipts" ∷ [])
    ∷ ("vm.preflight", "nativeArchitecture" ∷ "vmProfileId" ∷ "guestImageDigest" ∷ [])
    ∷ (
      "vm.create",
      "runtimeId" ∷ "snapshotId" ∷ "vmProfileId" ∷ "guestImageDigest" ∷ "nativeArchitecture" ∷ [],
    )
    ∷ ("vm.stageSnapshot", "runtimeId" ∷ "snapshotId" ∷ "archiveDigest" ∷ "manifestDigest" ∷ [])
    ∷ ("vm.compile", "runtimeId" ∷ "candidateRelPaths" ∷ "policyId" ∷ "approvalIds" ∷ [])
    ∷ ("vm.acquireBuildInputs", "runtimeId" ∷ "compiledPlanId" ∷ "approvalId" ∷ [])
    ∷ ("vm.build", "runtimeId" ∷ "compiledPlanId" ∷ "limitsProfileId" ∷ [])
    ∷ ("vm.start", "runtimeId" ∷ "compiledPlanId" ∷ "secretEnvelopeIds" ∷ [])
    ∷ ("vm.probe", "runtimeId" ∷ "signedControlPlan" ∷ "secretEnvelopeIds" ∷ [])
    ∷ ("vm.collect", "runtimeId" ∷ "declaredArtifactIds" ∷ "totalByteLimit" ∷ [])
    ∷ ("vm.status", "runtimeId" ∷ [])
    ∷ ("vm.heartbeat", "runtimeId" ∷ [])
    ∷ ("vm.pause", "runtimeId" ∷ "deadlineAt" ∷ [])
    ∷ ("vm.resume", "runtimeId" ∷ "compiledPlanId" ∷ [])
    ∷ ("vm.stop", "runtimeId" ∷ "deadlineAt" ∷ [])
    ∷ ("vm.destroy", "runtimeId" ∷ "preserveDeclaredReceipts" ∷ [])
    ∷ ("vm.emergencyStop", "runtimeId" ∷ "reason" ∷ [])
    ∷ ("reconcile.list", "installationId" ∷ "runIds" ∷ [])
    ∷ (
      "provider.preflight",
      "provider" ∷ "releaseAuthorityDigest" ∷ "immutableImageReference"
          ∷ "providerHomeAuthorityDigest" ∷ "networkPolicyDigest" ∷ "outputSchemaDigest" ∷ [],
    )
    ∷ (
      "provider.stage",
      "jobId" ∷ "provider" ∷ "envelopeDigest" ∷ "taskBytesBase64" ∷ "taskBytesDigest"
          ∷ "outputSchemaDigest" ∷ "providerHomeAuthorityDigest" ∷ [],
    )
    ∷ (
      "provider.execute",
      "jobId" ∷ "provider" ∷ "stagedTaskId" ∷ "immutableImageReference" ∷ "networkAttestationDigest"
          ∷ "deadlineAt" ∷ "wallSeconds" ∷ "outputBytes" ∷ [],
    )
    ∷ ("provider.cancel", "jobId" ∷ "reasonCode" ∷ [])
    ∷ ("provider.cleanup", "jobId" ∷ "preserveReceiptIds" ∷ [])
    ∷ ("provider.status", "jobId" ∷ [])
    ∷ (
      "secret.store",
      "handleId" ∷ "purpose" ∷ "recipient" ∷ "approvalDigest" ∷ "expiresAt" ∷ "maxUses"
          ∷ "sealedValue" ∷ [],
    )
    ∷ ("secret.consume", "handleId" ∷ "purpose" ∷ "recipient" ∷ "runtimeCreationNonce" ∷ [])
    ∷ ("secret.revoke", "handleId" ∷ "reasonCode" ∷ [])
    ∷ ("request-guard.admit", "runtimeId" ∷ "signedControlPlan" ∷ "compiledPlanDigest" ∷ [])
    ∷ (
      "request-guard.issue",
      "runtimeId" ∷ "runtimeCreationNonce" ∷ "snapshotId" ∷ "compiledPlanId" ∷ "compiledPlanDigest"
          ∷ "internalOrigins" ∷ "selectedProfileIds" ∷ "approvalIds" ∷ "plannedControlIds"
          ∷ "probeProfileId" ∷ "requestedExpiresAt" ∷ [],
    )
    ∷ ("request-guard.revoke", "runtimeId" ∷ "controlPlanDigest" ∷ "reasonCode" ∷ [])
    ∷ []
