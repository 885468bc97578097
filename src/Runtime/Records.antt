-- ===== src/Runtime/Records.antt =====
-- The types of packages/runtime/src/capability.ts, and those of packages/runtime/src/types.ts that it uses.
use repo_assessment_kit.Prelude.{ℕ, String, Bool, Option, List}
use repo_assessment_kit.Json.{Value}

pub record Attestations : Type 0 where
  pub rootless : Bool
  pub cgroup_version : ℕ
  pub delegated_controllers : List String
  pub details : Value

pub record Browser : Type 0 where
  pub chromium : String
  pub playwright_version : Option String

pub record PassiveScan : Type 0 where
  pub kind : String
  pub state : String

pub record BlockingReason : Type 0 where
  pub code : String
  pub message : String
  pub affected_control_ids : List String
  pub follow_up : String

pub record PolicyCheck : Type 0 where
  pub check_id : String
  pub outcome : String
  pub reason_codes : List String

pub data CapabilityState : Type 0 where
  capable blocked not_applicable : CapabilityState

pub record RuntimeCapabilityInput : Type 0 where
  pub runtime_capability_id : String
  pub run_id : String
  pub snapshot_id : String
  pub native_architecture : String
  pub attestations : Option Attestations
  pub candidates : Option (List Value)
  pub selected_candidate_id : Option String
  pub verified_snapshot : Bool
  pub policy_compilable : Bool
  pub planned_controls : List String
  pub browser_required : Bool
  pub browser : Browser
  pub passive_scan : Option PassiveScan
  pub approval_ids : Option (List String)
  pub limits_profile_id : String

pub record RuntimeCapability : Type 0 where
  pub runtime_capability_id : String
  pub run_id : String
  pub snapshot_id : String
  pub state : CapabilityState
  pub native_architecture : String
  pub attestations : Option Attestations
  pub candidates : List Value
  pub selected_candidate_id : Option String
  pub policy_checks : List PolicyCheck
  pub browser : Browser
  pub passive_scan : PassiveScan
  pub attempted_safe_steps : List String
  pub blocking_reasons : List BlockingReason
  pub approval_ids : List String
  pub limits_profile_id : String

pub record ControlResult : Type 0 where
  pub planned_control_id : String
  pub status : CapabilityState
  pub reason_code : String
  pub reason : String

pub record RuntimeCoverageResolution : Type 0 where
  pub dynamic_coverage : CapabilityState
  pub control_results : List ControlResult
