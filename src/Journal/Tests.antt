-- ===== src/Journal/Tests.antt =====
-- The journal of scripts/host-helper-journal.mjs at concrete requests.
use repo_assessment_kit.Prelude.{some, ◌≡◌, refl, ◌≢◌, ◌≤◌, inl, [], ◌∷◌, arith, eq_iff}
use repo_assessment_kit.Prelude.Dict.{lookup, insert}
use repo_assessment_kit.Prelude.Result.{
  ok, throws, idempotency_conflict, invalid_transition, replay,
}
use repo_assessment_kit.Json.{Value, str, obj, fields_of, get, read, inherited}
use repo_assessment_kit.Json.Text.{to_text}
use repo_assessment_kit.Journal.{
  Request, Entry, Journal, empty, fresh, replayed, record_admission, admit, is_used, current_fence,
  accepted_entry, complete, resource_of, cleanup_of, set_resource, drop_resource, settle,
}
use repo_assessment_kit.Journal.Growth.{here, SameCommand}
use repo_assessment_kit.Journal.Guarantees.{
  no_replay, fence_monotone, key_bound, Answer, admit-resent, complete-replayed,
}

abbrev create : Request
create = record {
  installation_id = "kit";
  request_id = "q1";
  command_id = "c1";
  run_id = "run1";
  attempt_id = "a1";
  fence_token = 3;
  idempotency_key = "k1";
  counter = 7;
  nonce = "n1";
  operation = "vm.create";
  payload = obj (fields_of (("runtimeId", str "rt1") ∷ []));
  request_digest = "d1";
}

abbrev response : Value
response = obj (fields_of (("state", str "SUCCEEDED") ∷ []))

abbrev admitted_once : Journal
admitted_once = record_admission create empty

admitted_create : admit create empty ≡ ok (fresh, admitted_once)
unfolding admit is_used current_fence lookup insert inherited
admitted_create = refl

-- The same nonce under another key and a higher counter.
abbrev stolen : Request
stolen = record create { idempotency_key = "k2"; counter = 9; request_digest = "d2" }

no_replay_example : admit stolen admitted_once ≢ ok (fresh, admitted_once)
no_replay_example =
    no_replay create stolen empty admitted_once admitted_once admitted_once admitted_create here
      (inl refl)

stolen_refused : admit stolen admitted_once ≡ throws replay
unfolding admit is_used current_fence lookup insert inherited
stolen_refused = refl

abbrev second : Request
second = record create {
  idempotency_key = "k2";
  counter = 8;
  nonce = "n2";
  fence_token = 4;
  request_digest = "d2";
}

admitted_second : admit second admitted_once ≡ ok (fresh, record_admission second admitted_once)
unfolding admit is_used current_fence lookup insert inherited
admitted_second = refl

fence_monotone_example : 3 ≤ second.fence_token
fence_monotone_example =
    fence_monotone create second empty admitted_once admitted_once
      (record_admission second admitted_once) admitted_create here admitted_second refl

abbrev altered : Request
altered = record create { request_digest = "d2" }

key_bound_example : admit altered admitted_once ≡ throws idempotency_conflict
key_bound_example =
    key_bound create altered empty admitted_once admitted_once admitted_create here refl
      (inl (ground (arith, eq_iff "d2" "d1")))

-- A copy of a pending command.
resent_pending : admit create admitted_once ≡ throws invalid_transition
unfolding admit lookup insert
resent_pending = refl

admit-resent_example :
    (e : Entry) × (lookup "k1" admitted_once.idempotency ≡ some e)
    × SameCommand (accepted_entry create) e
    × Answer create e admitted_once
admit-resent_example = admit-resent create empty admitted_once admitted_once admitted_create here

abbrev completed_once : Journal
completed_once =
    set_resource create response (str "rt1")
      (settle "k1" (accepted_entry create) response admitted_once)

completed_create : complete create response admitted_once ≡ ok completed_once
unfolding complete resource_of cleanup_of set_resource drop_resource lookup insert get read to_text
completed_create = refl

complete-replayed_example : admit create completed_once ≡ ok (replayed response, completed_once)
complete-replayed_example =
    complete-replayed create response empty admitted_once admitted_once completed_once
      admitted_create here completed_create
