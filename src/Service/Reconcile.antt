-- ===== src/Service/Reconcile.antt =====
-- `reconcile` and `emergencyStop` of scripts/host-helper-service.mjs: how the helper settles, after a
-- crash, the commands that were admitted and have no result, and how it stops a machine. What a driver
-- returns is an argument, and no other call of the journal comes in between. A driver's `state` that is
-- neither absent nor a text is refused here.
pub mod Written
pub mod Settled
pub mod Grown
pub mod Named
pub mod Reported
pub mod Stopped
pub mod Tests
use Prim.Native.String
use repo_assessment_kit.Prelude.{
  ℕ, String, Bool, true, false, not, ◌&&◌, Option, none, some, List, [], ◌∷◌, ◌++◌, length, eqb,
  map, every, includes, ◌==◌, if◌then◌else◌,
}
use repo_assessment_kit.Prelude.Dict.{lookup}
use repo_assessment_kit.Prelude.Result.{
  auth_failed, unknown_registered_id, invalid_transition, resource_not_found, internal, thrown,
  Result, ok, throws, require, ◌>>=◌, ◌>>◌,
}
use repo_assessment_kit.Json.{
  natural, Value, undefined, null, obj, arr, str, num, fields_of, keys, items, get, read, is_text,
  one_of, is_record,
}
use repo_assessment_kit.Json.Text.{to_text}
use repo_assessment_kit.Journal.{
  Entry, Resource, Journal, pending_accepted, reconcile_accepted, record_maintenance,
}
use repo_assessment_kit.Protocol.Grammar.{Platform, text_and}
use repo_assessment_kit.Protocol.Canonical.{canonical_json}
use repo_assessment_kit.Protocol.Shape.{sort}
use repo_assessment_kit.Protocol.Requests.{sign_host_response}
use repo_assessment_kit.Protocol.Results.{operation_result_ok}
use repo_assessment_kit.Service.{Drive}

-- `[...new Set(texts)]`.
unfoldable pub unique : List String → List String → List String
unique seen [] = []
unique seen (t ∷ ts) =
    let fresh = t ∷ unique (t ∷ seen) ts in
    let again = unique seen ts in if includes seen t then again else fresh

pub run_ids : List (String × Resource) → List String
run_ids [] = []
run_ids ((id, resource) ∷ others) = resource.run_id ∷ run_ids others

-- `Object.keys(item).sort().join(",")`.
joined_keys : List String → String
joined_keys [] = ""
joined_keys (k ∷ []) = k
joined_keys (k ∷ next ∷ ks) = String.◌++◌ k (String.◌++◌ "," (joined_keys (next ∷ ks)))

is_reconciled_command : Value → Bool
unfolding joined_keys
is_reconciled_command (obj fs) =
    joined_keys (sort (keys fs)) == "idempotencyKey,requestDigest,result"
is_reconciled_command v = false

-- Whether the texts under `idempotencyKey` are distinct. Each other value counts as one of its own; the
-- source may find two of them equal, and throws here where the loop would.
unfoldable pub distinct_keys : List String → List Value → Bool
distinct_keys seen [] = true
distinct_keys seen (v ∷ vs) = elim (get v "idempotencyKey") [
  | str key ↦ not (includes seen key) && distinct_keys (key ∷ seen) vs
  | other ↦ distinct_keys seen vs
]

-- `result.reconciledCommands ?? []`, if it is an array.
unfoldable pub commands_of : Value → Option (List Value)
commands_of Value.undefined = some []
commands_of Value.null = some []
commands_of (arr vs) = some (items vs)
commands_of v = none

unfoldable pub commands_ok : ℕ → List Value → Bool
unfolding distinct_keys is_reconciled_command
commands_ok pending commands =
    eqb (length commands) pending
    && distinct_keys [] commands
    && every is_reconciled_command commands

-- The commands, if they may be those that are pending.
unfoldable pub counted : ℕ → Option (List Value) → Result (List Value)
unfolding commands_ok
counted pending none = throws internal
counted pending (some commands) =
    if commands_ok pending commands then ok commands else throws internal

-- `pending.find(…)`.
unfoldable pub find_pending : Value → List (String × Entry) → Option (String × Entry)
find_pending command [] = none
find_pending command ((key, entry) ∷ others) =
    if is_text (get command "idempotencyKey") key
      && is_text (get command "requestDigest") entry.request_digest
    then some (key, entry)
    else find_pending command others

abbrev pub final_states : List String
final_states = "SUCCEEDED" ∷ "REJECTED" ∷ "FAILED" ∷ "CANCELLED" ∷ "INTERRUPTED" ∷ []

unfoldable pub is_final : Value → Bool
is_final result = is_record result && one_of final_states (get result "state")

-- The durable write of a record: `canonicalJson` throws for what is no JSON, as for `undefined`, and the
-- journal stays as it was.
unfoldable pub written : Value → Result Value → Journal → Journal → Journal × Result Value
written detail outcome before after = elim (canonical_json detail) [
  | throws x ↦ (before, throws x)
  | ok text ↦ (after, outcome)
]

-- The helper's key and installation.
module _ (node : Platform) (key : List ℕ) (installation : String) where
  -- The response for a command that the driver has found again.
  unfoldable pub reconciled_response : Entry → Value → String → Result Value
  reconciled_response expected result time = do
    response ←
        sign_host_response node
          (obj (
            fields_of (
              ("protocolVersion", str "1.0.0")
              ∷ ("requestId", str expected.request_id)
              ∷ ("commandId", str expected.command_id)
              ∷ ("operation", str expected.operation)
              ∷ ("requestDigest", str expected.request_digest)
              ∷ ("state", get result "state")
              ∷ ("heartbeatAt", str time)
              ∷ ("result", result)
              ∷ [])))
          key
    require (operation_result_ok node expected.operation result (to_text (get result "state")))
        auth_failed
    ok response

  -- One command of the loop, after `pending` was read.
  unfoldable pub reconcile_command :
      List (String × Entry) → String → Value → Journal → Result Journal
  unfolding find_pending is_final
  reconcile_command pending time command j = elim (find_pending command pending) [
    | none ↦ throws invalid_transition
    | some (id, expected) ↦ do
      require (is_final (get command "result")) invalid_transition
      response ← reconciled_response expected (get command "result") time
      reconcile_accepted id expected.request_digest response j
  ]

  -- The loop: what it has written stays when a later command is refused.
  unfoldable pub reconcile_commands :
      List (String × Entry) → String → List Value → Journal → Journal × Result (Unit {0})
  reconcile_commands pending time [] j = (j, ok tt)
  reconcile_commands pending time (command ∷ commands) j =
      elim (reconcile_command pending time command j) [
        | throws x ↦ (j, throws x)
        | ok j' ↦ reconcile_commands pending time commands j'
      ]

  -- The checks of the driver's result, with the commands that it reports.
  unfoldable pub checked_result : Value → ℕ → Result (List Value)
  unfolding commands_of counted
  checked_result result pending = do
    require (operation_result_ok node "reconcile.list" result (to_text (get result "state")))
        auth_failed
    require (is_text (get result "installationId") installation) invalid_transition
    counted pending (commands_of (get result "reconciledCommands"))

  abbrev pub summary : Value → ℕ → Value
  summary result count = obj (
      fields_of (
        ("state", get result "state")
        ∷ ("pendingCount", num (natural count))
        ∷ ("reconciledCount", num (natural count))
        ∷ []))

  unfoldable pub finish_reconcile :
      Value → ℕ → String → Journal × Result (Unit {0}) → Journal × Result Value
  unfolding written
  finish_reconcile result count time (j, throws x) = (j, throws x)
  finish_reconcile result count time (j, ok _) =
      written (summary result count) (ok result) j
        (record_maintenance "installation" "RECONCILED" (summary result count) time j)

  -- From the driver's result on.
  unfoldable pub reconcile_result : String → Journal → Result Value → Journal × Result Value
  unfolding checked_result finish_reconcile
  reconcile_result time j (throws x) = (j, throws x)
  reconcile_result time j (ok result) =
      let pending = pending_accepted j in
      elim (checked_result result (length pending)) [
        | throws x ↦ (j, throws x)
        | ok commands ↦
            finish_reconcile result (length pending) time
              (reconcile_commands pending time commands j)
      ]

  -- The driver is given the identifiers of the runs that have resources.
  unfoldable pub reconcile :
      Option (List String → Result Value) → String → Journal → Journal × Result Value
  unfolding unique run_ids
  reconcile none time j = (j, throws unknown_registered_id)
  reconcile (some driver) time j =
      reconcile_result time
        (record_maintenance "installation" "RECONCILING" (obj (fields_of [])) time j)
        (driver (unique [] (run_ids j.resources)))

-- `emergencyStop`, where the driver records some phases and then returns or throws.
registered_resource : String → Option Resource → Option Resource
registered_resource run_id none = none
registered_resource run_id (some resource) =
    if resource.run_id == run_id && text_and (λ s. not (s == "")) resource.creation_nonce
    then some resource
    else none

unfoldable pub stop_phases : String → String → Resource → String → List String → Journal → Journal
stop_phases run_id runtime_id resource time [] j = j
stop_phases run_id runtime_id resource time (phase ∷ phases) j =
    stop_phases run_id runtime_id resource time phases (
      record_maintenance runtime_id phase
        (obj (fields_of (("runId", str run_id) ∷ ("creationNonce", resource.creation_nonce) ∷ [])))
        time j)

-- `await driver(…)` has returned; `result.cleanup` throws if there is no result.
unfoldable pub stop_recorded :
    String → String → Value → Result Value → Journal → Journal × Result Value
unfolding written
stop_recorded runtime_id time result (throws x) j = (j, throws x)
stop_recorded runtime_id time result (ok cleanup) j =
    let detail = obj (fields_of (("cleanup", cleanup) ∷ [])) in
    written detail (ok result) j (record_maintenance runtime_id "STOPPED" detail time j)

unfoldable pub stopped : String → String → Result Value → Journal → Journal × Result Value
unfolding read stop_recorded
stopped runtime_id time (throws x) j = (j, throws x)
stopped runtime_id time (ok result) j =
    stop_recorded runtime_id time result (read result "cleanup") j

unfoldable pub stop_resource :
    String → String → Option Drive → String → Journal → Option Resource → Journal × Result Value
unfolding stop_phases stopped
stop_resource run_id runtime_id driver time j none = (j, throws resource_not_found)
stop_resource run_id runtime_id none time j (some resource) =
    (stop_phases run_id runtime_id resource time ("FENCED" ∷ []) j, throws thrown)
stop_resource run_id runtime_id (some drive) time j (some resource) =
    stopped runtime_id time drive.outcome
      (stop_phases run_id runtime_id resource time ("FENCED" ∷ drive.phases) j)

unfoldable pub emergency_stop :
    String → String → Option Drive → String → Journal → Journal × Result Value
unfolding registered_resource stop_resource
emergency_stop run_id runtime_id driver time j =
    stop_resource run_id runtime_id driver time j
      (registered_resource run_id (lookup runtime_id j.resources))
