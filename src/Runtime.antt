-- ===== src/Runtime.antt =====
-- packages/runtime/src/capability.ts: whether the isolated runtime may be used for a run, and what a
-- refusal means for the dynamic controls. Versions and digests of an attestation, candidates and scans are
-- values that are passed on unread.
mod Records
pub mod Gate
pub mod Tests
use repo_assessment_kit.Prelude.{
  ℕ, String, Bool, true, false, not, ◌&&◌, Option, none, some, List, [], ◌∷◌, ◌++◌, map, includes,
  eqb, ◌==◌, if◌then◌else◌,
}
pub use Records.*
use Prim.Native.String

abbrev given {ℓ} : {A : Type ℓ} → Option A → A → A
given none x = x
given (some y) x = y

abbrev pub required_controllers : List String
required_controllers = "cpu" ∷ "memory" ∷ "pids" ∷ "io" ∷ []

abbrev pub blocking_reason : List String → String → String → String → BlockingReason
blocking_reason affected code message follow_up = record {
  code = code;
  message = message;
  affected_control_ids = affected;
  follow_up = follow_up;
}

-- `if (!condition) block(…)`.
abbrev pub unless : Bool → BlockingReason → List BlockingReason
unless condition r = if condition then [] else r ∷ []

missing_attestation : List String → BlockingReason
missing_attestation affected =
    blocking_reason affected "RUNTIME_ATTESTATION_MISSING"
      "Trusted native runtime attestation is unavailable."
      "Continue static-only or provision the trusted native broker."

-- The loop over the controllers.
unfoldable pub controller_reasons : List String → List String → List String → List BlockingReason
controller_reasons affected delegated [] = []
controller_reasons affected delegated (controller ∷ controllers) =
    unless (includes delegated controller) (
      blocking_reason affected "CGROUP_CONTROLLER_MISSING"
        (String.◌++◌ "Required " (String.◌++◌ controller " delegation is missing."))
        "Provision all release-required delegated controllers.")
    ++ controller_reasons affected delegated controllers

unfoldable pub attestation_reasons : List String → Option Attestations → List BlockingReason
unfolding missing_attestation controller_reasons
attestation_reasons affected none = missing_attestation affected ∷ []
attestation_reasons affected (some a) =
    unless a.rootless (
      blocking_reason affected "ROOTLESS_DOCKER_REQUIRED"
        "The attested Docker engine is not rootless." "Provision the pinned rootless guest.")
    ++ (unless (eqb a.cgroup_version 2) (
          blocking_reason affected "CGROUP_V2_REQUIRED" "The runtime does not attest cgroup v2."
            "Provision the pinned guest with cgroup v2.")
        ++ controller_reasons affected a.delegated_controllers required_controllers)

unfoldable pub blocking_reasons : RuntimeCapabilityInput → List BlockingReason
unfolding attestation_reasons
blocking_reasons input =
    let affected = input.planned_controls in
    attestation_reasons affected input.attestations
    ++ (unless input.verified_snapshot (
          blocking_reason affected "SNAPSHOT_NOT_VERIFIED" "The immutable snapshot is not verified."
            "Re-stage and verify the immutable snapshot.")
        ++ (unless input.policy_compilable (
              blocking_reason affected "RUNTIME_POLICY_REJECTED"
                "The target runtime cannot be compiled without relaxing policy."
                "Continue static-only; controls are never relaxed.")
            ++ unless (not (input.browser_required && not (input.browser.chromium == "available")))
                (blocking_reason affected "BROWSER_UNAVAILABLE"
                  "The release browser is unavailable."
                  "Continue static-only or install the pinned compatible browser.")))

-- The result where no control is planned.
unfoldable pub not_applicable_capability : RuntimeCapabilityInput → RuntimeCapability
not_applicable_capability input = record {
  runtime_capability_id = input.runtime_capability_id;
  run_id = input.run_id;
  snapshot_id = input.snapshot_id;
  state = not_applicable;
  native_architecture = input.native_architecture;
  attestations = none;
  candidates = given input.candidates [];
  selected_candidate_id = none;
  policy_checks = [];
  browser = input.browser;
  passive_scan = given input.passive_scan (record { kind = "none"; state = "not-applicable" });
  attempted_safe_steps = "runtime-applicability" ∷ [];
  blocking_reasons = [];
  approval_ids = given input.approval_ids [];
  limits_profile_id = input.limits_profile_id;
}

-- `reasons.length === 0 ? first : second`.
abbrev pub if_none {ℓ} : {A : Type ℓ} → List BlockingReason → A → A → A
if_none [] first second = first
if_none (r ∷ rs) first second = second

unfoldable pub gated_capability : RuntimeCapabilityInput → List BlockingReason → RuntimeCapability
gated_capability input reasons = record {
  runtime_capability_id = input.runtime_capability_id;
  run_id = input.run_id;
  snapshot_id = input.snapshot_id;
  state = if_none reasons capable blocked;
  native_architecture = input.native_architecture;
  attestations = input.attestations;
  candidates = given input.candidates [];
  selected_candidate_id = input.selected_candidate_id;
  policy_checks =
      record {
        check_id = "release-runtime-gate";
        outcome = if_none reasons "accepted" "rejected";
        reason_codes = map (λ r. r.code) reasons;
      }
      ∷ [];
  browser = input.browser;
  passive_scan = given input.passive_scan (record { kind = "none"; state = "unavailable" });
  attempted_safe_steps =
      "native-attestation"
      ∷ "snapshot-verification"
      ∷ "runtime-policy-compilation"
      ∷ (if input.browser_required then "browser-compatibility" ∷ [] else []);
  blocking_reasons = reasons;
  approval_ids = given input.approval_ids [];
  limits_profile_id = input.limits_profile_id;
}

-- `if (input.plannedControls.length === 0) return …`.
unfoldable pub if_planned : List String → RuntimeCapability → RuntimeCapability → RuntimeCapability
if_planned [] without gated = without
if_planned (control ∷ controls) without gated = gated

unfoldable pub evaluate_runtime_capability : RuntimeCapabilityInput → RuntimeCapability
unfolding if_planned not_applicable_capability gated_capability
evaluate_runtime_capability input =
    if_planned input.planned_controls (not_applicable_capability input)
      (gated_capability input (blocking_reasons input))

abbrev first_code : List BlockingReason → String
first_code [] = "RUNTIME_NOT_APPLICABLE"
first_code (r ∷ rs) = r.code

abbrev first_message : List BlockingReason → String
first_message [] = "No dynamic control applies to this run."
first_message (r ∷ rs) = r.message

abbrev status_of : CapabilityState → CapabilityState
status_of not_applicable = not_applicable
status_of capable = blocked
status_of blocked = blocked

abbrev control_result : RuntimeCapability → String → ControlResult
control_result capability id = record {
  planned_control_id = id;
  status = status_of capability.state;
  reason_code = first_code capability.blocking_reasons;
  reason = first_message capability.blocking_reasons;
}

-- The static assessment continues in every case. `dynamic_coverage` is `capable` where the source
-- says "available".
unfoldable pub coverage_of :
    CapabilityState → RuntimeCapability → List String → RuntimeCoverageResolution
coverage_of capable capability ids = record { dynamic_coverage = capable; control_results = [] }
coverage_of blocked capability ids = record {
  dynamic_coverage = blocked;
  control_results = map (control_result capability) ids;
}
coverage_of not_applicable capability ids = record {
  dynamic_coverage = not_applicable;
  control_results = map (control_result capability) ids;
}

unfoldable pub resolve_runtime_coverage :
    RuntimeCapability → List String → RuntimeCoverageResolution
unfolding coverage_of
resolve_runtime_coverage capability ids = coverage_of capability.state capability ids
