-- ===== src/Service/Reconcile/Tests.antt =====
-- `reconcile` and `emergencyStop` of scripts/host-helper-service.mjs for a journal with one pending
-- command and one machine.
use repo_assessment_kit.Prelude.{String, List, ◌⊎◌, ◌≡◌, refl, ap, ◌∷◌, [], none, some}
use repo_assessment_kit.Prelude.Dict.{lookup, insert, erase}
use repo_assessment_kit.Prelude.Result.{ok}
use repo_assessment_kit.Json.{Value, str, obj, arr, item, no_items, fields_of, get, inherited}
use repo_assessment_kit.Json.Text.{to_text}
use repo_assessment_kit.Journal.{
  Entry, Resource, Journal, empty, pending_accepted, reconcile_accepted, is_pending,
  record_maintenance,
}
use repo_assessment_kit.Journal.Growth.{Extends}
use repo_assessment_kit.Protocol.Tests.{node, key}
use repo_assessment_kit.Protocol.Canonical.{canonical_json}
use repo_assessment_kit.Protocol.Requests.{sign_host_response, mac_of, with_field, without}
use repo_assessment_kit.Protocol.Results.{
  operation_result_ok, fields_closed, state_allowed, field_ok, nested_ok,
}
use repo_assessment_kit.Protocol.ResultRegistry.{operation_result_keys, result_states}
use repo_assessment_kit.Protocol.Receipts.{only_fields}
use repo_assessment_kit.Protocol.Grammar.{after_prefix, matches_safe_id, safe_id}
use repo_assessment_kit.Protocol.Shape.{sort}
use repo_assessment_kit.Service.{Drive}
use repo_assessment_kit.Service.Reconcile.{
  reconcile, reconcile_result, checked_result, reconcile_commands, reconcile_command,
  reconciled_response, finish_reconcile, emergency_stop,
}
use repo_assessment_kit.Service.Reconcile.Settled.{reconcile-settles}
use repo_assessment_kit.Service.Reconcile.Named.{Same, Settles}
use repo_assessment_kit.Service.Reconcile.Reported.{IsReported, reconcile-IsReported}
use repo_assessment_kit.Service.Reconcile.Stopped.{IsStopped, Untouched, emergency_stop-IsStopped}

abbrev accepted : Entry
accepted = record {
  request_digest = "sha256:0000000000000000000000000000000000000000000000000000000000000000";
  operation = "secret.revoke";
  request_id = "r1";
  command_id = "c1";
  run_id = "run1";
  attempt_id = "a1";
  fence_token = 1;
  state = str "ACCEPTED";
  result = none;
}

abbrev machine : Resource
machine = record {
  resource_id = "vm1";
  operation = "vm.create";
  run_id = "run1";
  attempt_id = "a1";
  fence_token = 1;
  creation_nonce = str "n1";
  state = str "CREATED";
}

abbrev crashed : Journal
crashed = record empty { idempotency = ("k1", accepted) ∷ []; resources = ("vm1", machine) ∷ [] }

abbrev revoked : Value
revoked =
    obj (
      fields_of
        (("state", str "SUCCEEDED") ∷ ("handleId", str "h1") ∷ ("revokedAt", str "t1") ∷ []))

abbrev report : Value
report = obj (
    fields_of (
      ("installationId", str "kit")
      ∷ ("state", str "SUCCEEDED")
      ∷ ("resources", arr no_items)
      ∷ (
        "reconciledCommands",
        arr (
            item
              (obj (
                fields_of (
                  ("idempotencyKey", str "k1")
                  ∷ ("requestDigest", str accepted.request_digest)
                  ∷ ("result", revoked)
                  ∷ [])))
              no_items),
      )
      ∷ []))

reconciled_all : (reconcile node key "kit" (some (λ runs. ok report)) "t1" crashed).1 ≡ ok report
unfolding reconcile reconcile_result checked_result reconcile_commands reconcile_command
    reconciled_response finish_reconcile operation_result_ok fields_closed state_allowed field_ok
    nested_ok sign_host_response with_field mac_of lookup get insert canonical_json pending_accepted
    reconcile_accepted is_pending record_maintenance without erase operation_result_keys only_fields
    result_states after_prefix matches_safe_id safe_id sort inherited to_text
reconciled_all = refl

reconcile-settles_example :
    pending_accepted (reconcile node key "kit" (some (λ runs. ok report)) "t1" crashed).0 ≡ []
reconcile-settles_example =
    reconcile-settles node key "kit" (some (λ runs. ok report)) "t1" crashed
      (reconcile node key "kit" (some (λ runs. ok report)) "t1" crashed).0 report
      (ap (λ r. ((reconcile node key "kit" (some (λ runs. ok report)) "t1" crashed).0, r))
        reconciled_all)

reconcile-IsReported_example :
    Extends crashed (reconcile node key "kit" (some (λ runs. ok report)) "t1" crashed).0
    × ((id : String)
        → Same crashed (reconcile node key "kit" (some (λ runs. ok report)) "t1" crashed).0 id
          ⊎ ((commands : List Value) × IsReported node key "kit"
                (some (λ runs. ok report))
                crashed
                commands
              × Settles commands crashed
                  (reconcile node key "kit" (some (λ runs. ok report)) "t1" crashed).0
                  id))
reconcile-IsReported_example =
    reconcile-IsReported node key "kit" (some (λ runs. ok report)) "t1" crashed

abbrev stop_result : Value
stop_result = obj (fields_of (("cleanup", str "done") ∷ []))

abbrev stop_drive : Drive
stop_drive = record { phases = "QUIESCED" ∷ []; outcome = ok stop_result }

machine_stopped : (emergency_stop "run1" "vm1" (some stop_drive) "t1" crashed).1 ≡ ok stop_result
unfolding emergency_stop canonical_json
machine_stopped = refl

emergency_stop-IsStopped_example :
    ((r : Resource) × (lookup "vm1" crashed.resources ≡ some r) × (r.run_id ≡ "run1"))
    × IsStopped "vm1" "t1" stop_result
        (emergency_stop "run1" "vm1" (some stop_drive) "t1" crashed).0
    × Untouched crashed (emergency_stop "run1" "vm1" (some stop_drive) "t1" crashed).0
emergency_stop-IsStopped_example =
    emergency_stop-IsStopped "run1" "vm1" (some stop_drive) "t1" crashed
      (emergency_stop "run1" "vm1" (some stop_drive) "t1" crashed).0 stop_result
      (ap (λ r. ((emergency_stop "run1" "vm1" (some stop_drive) "t1" crashed).0, r))
        machine_stopped)
