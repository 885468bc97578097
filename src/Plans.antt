-- ===== src/Plans.antt =====
-- The admission of signed control plans in packages/runtime/src/control-plan.ts: the class
-- `InMemoryControlPlanAdmissionJournal`, and what `admitSignedDynamicControlPlan` does with it once the
-- envelope is verified.
pub mod Coherent
pub mod Once
pub mod Tests
use repo_assessment_kit.Prelude.{String, Option, none, some, List, [], ◌≡◌}
use repo_assessment_kit.Prelude.Dict.{lookup, insert}
use repo_assessment_kit.Json.{Value}

pub data PlanState : Type 0 where
  admitted revoked : PlanState

pub record ControlPlanAdmission : Type 0 where
  pub control_plan_id : String
  pub payload_digest : String
  pub signature_digest : String
  pub canonical_payload_base64 : String
  pub signature_algorithm : String
  pub signing_key_id : String
  pub signature : String
  pub run_id : String
  pub runtime_id : String
  pub runtime_creation_nonce : String
  pub attempt_id : String
  pub fence_token : String
  pub snapshot_id : String
  pub compiled_plan_id : String
  pub compiled_plan_digest : String
  pub selected_profile_ids : List String
  pub approval_ids : List String
  pub authority_digest : String
  pub probe_profile_id : String
  pub internal_origins : Value
  pub nonce : String
  pub expires_at : String
  pub admitted_at : String
  pub state : PlanState
  pub revoked_at : Option String
  pub revocation_reason : Option String

-- The two maps of the class; a `Map` keeps an entry's place when it is set again.
pub record PlanJournal : Type 0 where
  pub records : List (String × ControlPlanAdmission)
  pub nonces : List (String × String)

abbrev pub empty_journal : PlanJournal
empty_journal = record { records = []; nonces = [] }

unfoldable pub find_by_plan_id : String → PlanJournal → Option ControlPlanAdmission
find_by_plan_id id j = lookup id j.records

found_plan : Option String → PlanJournal → Option ControlPlanAdmission
unfolding find_by_plan_id
found_plan none j = none
found_plan (some id) j = find_by_plan_id id j

unfoldable pub find_by_nonce : String → PlanJournal → Option ControlPlanAdmission
unfolding found_plan
find_by_nonce nonce j = found_plan (lookup nonce j.nonces) j

-- A refusal has the code of its `ControlPlanError`.
pub data Admission : Type 0 where
  refused : (code : String) → Admission
  stored : PlanJournal → Admission

-- `has` of the two maps, then the two writes.
unfoldable pub append_new :
    Option ControlPlanAdmission → Option String → ControlPlanAdmission → PlanJournal → Admission
append_new none none r j = stored (record {
  records = insert r.control_plan_id r j.records;
  nonces = insert r.nonce r.control_plan_id j.nonces;
})
append_new _ _ r j = refused "CONTROL_PLAN_REPLAY"

unfoldable pub append_plan : ControlPlanAdmission → PlanJournal → Admission
unfolding append_new
append_plan r j = append_new (lookup r.control_plan_id j.records) (lookup r.nonce j.nonces) r j

abbrev pub revoked_plan : String → String → ControlPlanAdmission → ControlPlanAdmission
revoked_plan time reason r = record r {
  state = revoked;
  revoked_at = some time;
  revocation_reason = some reason;
}

unfoldable pub revoke_found :
    Option ControlPlanAdmission → String → String → String → PlanJournal → PlanJournal
revoke_found none id time reason j = j
revoke_found (some r) id time reason j = record j {
  records = insert id (revoked_plan time reason r) j.records;
}

unfoldable pub revoke : String → String → String → PlanJournal → PlanJournal
unfolding revoke_found
revoke id time reason j = revoke_found (lookup id j.records) id time reason j

-- The end of `admitSignedDynamicControlPlan`, with the record that it builds. It waits for each call of
-- the journal, so each call may find another state of it.
admit_unknown :
    Option ControlPlanAdmission
    → Option ControlPlanAdmission
    → ControlPlanAdmission
    → PlanJournal
    → Admission
unfolding append_plan
admit_unknown (some replay) _ r j = refused "CONTROL_PLAN_REPLAY"
admit_unknown none (some existing) r j = refused "CONTROL_PLAN_ID_REPLAY"
admit_unknown none none r j = append_plan r j

unfoldable pub admit_plan :
    ControlPlanAdmission → PlanJournal → PlanJournal → PlanJournal → Admission
unfolding admit_unknown find_by_nonce find_by_plan_id
admit_plan r at_nonce at_plan at_append =
    admit_unknown (find_by_nonce r.nonce at_nonce) (find_by_plan_id r.control_plan_id at_plan) r
      at_append

-- What may happen to the journal, in any order.
pub data PlanHistory : PlanJournal → PlanJournal → Type 0 where
  start : {j : PlanJournal} → PlanHistory j j
  appends :
      {j middle end : PlanJournal} (r : ControlPlanAdmission)
      → PlanHistory j middle
      → append_plan r middle ≡ stored end
      → PlanHistory j end
  revokes :
      {j middle end : PlanJournal} (id time reason : String)
      → PlanHistory j middle
      → end ≡ revoke id time reason middle
      → PlanHistory j end
