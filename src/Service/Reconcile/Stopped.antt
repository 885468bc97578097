-- ===== src/Service/Reconcile/Stopped.antt =====
-- What `emergencyStop` of scripts/host-helper-service.mjs has done when it returns.
use repo_assessment_kit.Prelude.{
  ◌≡◌, refl, ◌∙◌, String, Option, none, some, List, [], ◌∷◌, arith, eq_iff,
}
use repo_assessment_kit.Prelude.Dict.{lookup, lookup-insert_self}
use repo_assessment_kit.Prelude.Result.{Result, ok, throws}
use repo_assessment_kit.Json.{Value, obj, str, fields_of, read}
use repo_assessment_kit.Journal.{Resource, Journal, record_maintenance}
use repo_assessment_kit.Service.{Drive}
use repo_assessment_kit.Service.Reconcile.Written.{written-ok}
use repo_assessment_kit.Service.Reconcile.{
  registered_resource, stop_phases, stop_recorded, stopped, stop_resource, emergency_stop,
}

-- The commands and the resources are left as they were.
abbrev pub Untouched : Journal → Journal → Type 0
Untouched j j' = (j'.idempotency ≡ j.idempotency) × (j'.resources ≡ j.resources)

stop_phases-Untouched :
    (run_id runtime_id : String) (resource : Resource) (time : String) (phases : List String)
    (j : Journal)
    → Untouched j (stop_phases run_id runtime_id resource time phases j)
unfolding stop_phases record_maintenance
stop_phases-Untouched run_id runtime_id resource time [] j = (refl, refl)
stop_phases-Untouched run_id runtime_id resource time (phase ∷ phases) j =
    stop_phases-Untouched run_id runtime_id resource time phases (
      record_maintenance runtime_id phase
        (obj (fields_of (("runId", str run_id) ∷ ("creationNonce", resource.creation_nonce) ∷ [])))
        time j)

-- The record that a stop leaves under the identifier of the machine.
abbrev pub stop_record : Value → String → Value
stop_record cleanup time = obj (
    fields_of (
      ("phase", str "STOPPED")
      ∷ ("detail", obj (fields_of (("cleanup", cleanup) ∷ [])))
      ∷ ("recordedAt", str time)
      ∷ []))

abbrev pub IsStopped : String → String → Value → Journal → Type 0
IsStopped runtime_id time result j =
    (cleanup : Value) × (read result "cleanup" ≡ ok cleanup)
    × (lookup runtime_id j.cleanup ≡ some (stop_record cleanup time))

stop_recorded-IsStopped :
    (runtime_id time : String) (v : Value) (c : Result Value) (j j' : Journal) (result : Value)
    → read v "cleanup" ≡ c
    → stop_recorded runtime_id time v c j ≡ (j', ok result)
    → IsStopped runtime_id time result j' × Untouched j j'
unfolding stop_recorded
stop_recorded-IsStopped runtime_id time v (throws x) j j' result e h = cc
stop_recorded-IsStopped runtime_id time v (ok cleanup) j j' result e h =
    let detail = obj (fields_of (("cleanup", cleanup) ∷ [])) in
    let (after, returned) =
      written-ok detail (ok v) j (record_maintenance runtime_id "STOPPED" detail time j) j' result
        h in
    let same : v ≡ result = cc in
    (
      (
        cleanup,
        rw (← same) e,
        rw after (
            unfold record_maintenance in
            lookup-insert_self runtime_id (stop_record cleanup time) j.cleanup),
      ),
      (rw after (unfold record_maintenance in refl), rw after (unfold record_maintenance in refl)),
    )

stopped-IsStopped :
    (runtime_id time : String) (outcome : Result Value) (j j' : Journal) (result : Value)
    → stopped runtime_id time outcome j ≡ (j', ok result)
    → IsStopped runtime_id time result j' × Untouched j j'
unfolding stopped
stopped-IsStopped runtime_id time (throws x) j j' result h = cc
stopped-IsStopped runtime_id time (ok v) j j' result h =
    stop_recorded-IsStopped runtime_id time v (read v "cleanup") j j' result refl h

registered-run :
    (run_id : String) (o : Option Resource) (r : Resource)
    → registered_resource run_id o ≡ some r
    → (o ≡ some r) × (r.run_id ≡ run_id)
unfolding registered_resource
registered-run run_id none r h = cc
registered-run run_id (some s) r h = ground (arith, eq_iff s.run_id run_id)

resource-IsStopped :
    (run_id runtime_id : String) (driver : Option Drive) (time : String) (j j' : Journal)
    (result : Value) (o : Option Resource)
    → stop_resource run_id runtime_id driver time j o ≡ (j', ok result)
    → ((r : Resource) × (o ≡ some r)) × IsStopped runtime_id time result j' × Untouched j j'
unfolding stop_resource
resource-IsStopped run_id runtime_id driver time j j' result none h = cc
resource-IsStopped run_id runtime_id none time j j' result (some r) h = cc
resource-IsStopped run_id runtime_id (some drive) time j j' result (some r) h =
    let before = stop_phases run_id runtime_id r time ("FENCED" ∷ drive.phases) j in
    let (done, (commands, resources)) =
      stopped-IsStopped runtime_id time drive.outcome before j' result h in
    let (commands', resources') =
      stop_phases-Untouched run_id runtime_id r time ("FENCED" ∷ drive.phases) j in
    ((r, refl), done, (commands ∙ commands', resources ∙ resources'))

-- An emergency stop that returns has found the machine among the resources, registered_resource for the run
-- that asks; the journal records the machine as stopped, with the driver's cleanup; and no command
-- and no resource has changed.
pub emergency_stop-IsStopped :
    (run_id runtime_id : String) (driver : Option Drive) (time : String) (j j' : Journal)
    (result : Value)
    → emergency_stop run_id runtime_id driver time j ≡ (j', ok result)
    → ((r : Resource) × (lookup runtime_id j.resources ≡ some r) × (r.run_id ≡ run_id))
      × IsStopped runtime_id time result j'
      × Untouched j j'
unfolding emergency_stop
emergency_stop-IsStopped run_id runtime_id driver time j j' result h =
    let ((r, e), done, untouched) =
      resource-IsStopped run_id runtime_id driver time j j' result
        (registered_resource run_id (lookup runtime_id j.resources)) h in
    let (found, run) = registered-run run_id (lookup runtime_id j.resources) r e in
    ((r, found, run), done, untouched)
