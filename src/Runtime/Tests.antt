-- ===== src/Runtime/Tests.antt =====
-- packages/runtime/src/capability.ts at two concrete runtimes: one that may be used, and one whose engine is
-- not rootless.
use repo_assessment_kit.Prelude.{
  ◌≡◌, ◌≢◌, ◌↔◌, refl, Bool, true, false, none, some, [], ◌∷◌, map, All,
}
use repo_assessment_kit.Json.{Value}
use repo_assessment_kit.Runtime.{
  Attestations, RuntimeCapabilityInput, capable, blocking_reasons, evaluate_runtime_capability,
  resolve_runtime_coverage,
}
use repo_assessment_kit.Runtime.Gate.{IsRunnable, IsTold, evaluate-capable_iff, resolve-IsTold}

abbrev attested : Bool → Attestations
attested rootless = record {
  rootless = rootless;
  cgroup_version = 2;
  delegated_controllers = "memory" ∷ "cpu" ∷ "io" ∷ "pids" ∷ [];
  details = Value.null;
}

abbrev input : Bool → RuntimeCapabilityInput
input rootless = record {
  runtime_capability_id = "rcp_1";
  run_id = "run_1";
  snapshot_id = "snp_1";
  native_architecture = "arm64";
  attestations = some (attested rootless);
  candidates = none;
  selected_candidate_id = none;
  verified_snapshot = true;
  policy_compilable = true;
  planned_controls = "ctl_1" ∷ "ctl_2" ∷ [];
  browser_required = true;
  browser = record { chromium = "available"; playwright_version = none };
  passive_scan = none;
  approval_ids = none;
  limits_profile_id = "default";
}

planned : (rootless : Bool) → (input rootless).planned_controls ≢ []
planned rootless h = cc

evaluate-capable_iff_example :
    ((evaluate_runtime_capability (input true)).state ≡ capable) ↔ IsRunnable (input true)
evaluate-capable_iff_example = evaluate-capable_iff (input true) (planned true)

rooted : IsRunnable (input false) → ⊥
rooted r = cc r.attested.0

resolve-IsTold_example :
    let results =
      (resolve_runtime_coverage
        (evaluate_runtime_capability (input false))
        ("ctl_1" ∷ [])).control_results in
    (map (λ c. c.planned_control_id) results ≡ "ctl_1" ∷ [])
    × All (IsTold (blocking_reasons (input false))) results
resolve-IsTold_example = resolve-IsTold (input false) ("ctl_1" ∷ []) (planned false) rooted

-- Both runtimes, run.
usable : (evaluate_runtime_capability (input true)).state ≡ capable
unfolding evaluate_runtime_capability blocking_reasons
usable = refl
