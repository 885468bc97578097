-- ===== src/Plans/Tests.antt =====
-- Runs of the journal of control plans (packages/runtime/src/control-plan.ts), and its theorems at one of them.
use repo_assessment_kit.Prelude.{String, none, some, [], ◌∷◌, ◌≡◌, refl, inl}
use repo_assessment_kit.Prelude.Dict.{lookup, insert}
use repo_assessment_kit.Json.{arr, no_items}
use repo_assessment_kit.Plans.{
  admitted, ControlPlanAdmission, PlanJournal, empty_journal, find_by_plan_id, refused, stored,
  append_plan, revoke, admit_plan, start, appends, revokes, revoked_plan,
}
use repo_assessment_kit.Plans.Coherent.{IsCoherent, PlanHistory-IsCoherent, empty-IsCoherent}
use repo_assessment_kit.Plans.Once.{Holds, admitted_once}

abbrev plan_of : String → String → ControlPlanAdmission
plan_of id nonce = record {
  control_plan_id = id;
  payload_digest = "sha256:00";
  signature_digest = "sha256:01";
  canonical_payload_base64 = "e30=";
  signature_algorithm = "Ed25519";
  signing_key_id = "key";
  signature = "AA==";
  run_id = "run";
  runtime_id = "runtime";
  runtime_creation_nonce = "creation";
  attempt_id = "attempt";
  fence_token = "1";
  snapshot_id = "snapshot";
  compiled_plan_id = "compiled";
  compiled_plan_digest = "sha256:02";
  selected_profile_ids = "profile" ∷ [];
  approval_ids = [];
  authority_digest = "sha256:03";
  probe_profile_id = "probe";
  internal_origins = arr no_items;
  nonce = nonce;
  expires_at = "2026-01-02T00:00:00Z";
  admitted_at = "2026-01-01T00:00:00Z";
  state = admitted;
  revoked_at = none;
  revocation_reason = none;
}

abbrev held : PlanJournal
held = record { records = ("plan", plan_of "plan" "n") ∷ []; nonces = ("n", "plan") ∷ [] }

abbrev withdrawn : PlanJournal
withdrawn = record held {
  records = ("plan", revoked_plan "2026-01-01T01:00:00Z" "runtime-stop" (plan_of "plan" "n")) ∷ [];
}

appended : append_plan (plan_of "plan" "n") empty_journal ≡ stored held
unfolding append_plan lookup insert
appended = refl

stopped_plan : withdrawn ≡ revoke "plan" "2026-01-01T01:00:00Z" "runtime-stop" held
unfolding revoke lookup insert
stopped_plan = refl

-- A second plan with the same nonce is refused by the first look, or by the write where the look came
-- too early.
replay_refused : admit_plan (plan_of "other" "n") held held held ≡ refused "CONTROL_PLAN_REPLAY"
unfolding admit_plan lookup
replay_refused = refl

late_refused :
    admit_plan (plan_of "other" "n") empty_journal empty_journal held
    ≡ refused "CONTROL_PLAN_REPLAY"
unfolding admit_plan lookup
late_refused = refl

held_again : find_by_plan_id "plan" held ≡ some (plan_of "plan" "n")
unfolding find_by_plan_id lookup
held_again = refl

PlanHistory-IsCoherent_example : IsCoherent withdrawn
PlanHistory-IsCoherent_example =
    PlanHistory-IsCoherent
      (revokes "plan" "2026-01-01T01:00:00Z" "runtime-stop"
        (appends (plan_of "plan" "n") start appended) stopped_plan)
      empty-IsCoherent

held-IsCoherent : IsCoherent held
held-IsCoherent =
    PlanHistory-IsCoherent (appends (plan_of "plan" "n") start appended) empty-IsCoherent

admitted_once_example :
    Holds (plan_of "plan" "n") withdrawn
    × (code : String) × (admit_plan (plan_of "other" "n") empty_journal empty_journal withdrawn
        ≡ refused code)
admitted_once_example =
    admitted_once (plan_of "plan" "n") (plan_of "other" "n") empty_journal empty_journal
      held-IsCoherent held_again (inl refl)
      (revokes "plan" "2026-01-01T01:00:00Z" "runtime-stop" start stopped_plan)
