-- ===== src/Policy/Accepted.antt =====
-- What `validateRuntimePolicy` of packages/runtime/src/policy.ts has found where it accepts a candidate.
use repo_assessment_kit.Prelude.{append-eq-nil, ◌≡◌, ◌≢◌, refl, String, false, List, [], ◌∷◌, All}
use repo_assessment_kit.Json.{
  Fields, no_fields, property, Value, undefined, null, obj, arr, str, num, bool, get, entries,
}
use repo_assessment_kit.Policy.Tables.{unknown_keys, top_level_keys}
use repo_assessment_kit.Policy.Resources.{Doubles, Limits, unless_undefined}
use repo_assessment_kit.Policy.Parts.{values, validate_networks}
use repo_assessment_kit.Policy.Codes.{concat-eq-nil, rejects-eq-nil}
use repo_assessment_kit.Policy.Candidate.{
  accepted, turn_codes, turn_totals, validate_services, no_limits, exceeds_total, services_codes,
  candidate_parts, candidate_codes, decide, validate_runtime_policy,
}
use repo_assessment_kit.Policy.Contained.{ServiceIsContained, service_codes-IsContained}

decide-accepted :
    (candidate : Value) (found : List String) {normalized : Value}
    → decide candidate found ≡ accepted normalized
    → (found ≡ []) × (normalized ≡ candidate)
unfolding decide
decide-accepted candidate [] h = (refl, cc)
decide-accepted candidate (rejection ∷ others) h = cc

-- What the loop over the services has found.
pub record IsAccepted (doubles : Doubles) (candidate services : Fields) : Type 0 where
  pub fields : unknown_keys candidate top_level_keys ≡ []
  pub present : get (obj candidate) "services" ≡ obj services
  pub nonempty : services ≢ no_fields
  pub turns : (validate_services doubles (values (entries services)) no_limits).0 ≡ []
  pub within :
      exceeds_total doubles (validate_services doubles (values (entries services)) no_limits).1
      ≡ false
  pub networks : unless_undefined validate_networks (get (obj candidate) "networks") ≡ []

services-accepted :
    (doubles : Doubles) (v : Value)
    → services_codes doubles v ≡ []
    → (services : Fields) × (v ≡ obj services)
      × (services ≢ no_fields)
      × ((validate_services doubles (values (entries services)) no_limits).0 ≡ [])
      × (exceeds_total doubles (validate_services doubles (values (entries services)) no_limits).1
          ≡ false)
unfolding services_codes
services-accepted doubles (obj (property name first others)) h =
    let (turns, total) =
      append-eq-nil (validate_services doubles (first ∷ values (entries others)) no_limits).0 _ h in
    (property name first others, refl, λ e. cc, turns, rejects-eq-nil _ _ total)
services-accepted doubles (obj no_fields) h = cc
services-accepted doubles undefined h = cc
services-accepted doubles null h = cc
services-accepted doubles (arr vs) h = cc
services-accepted doubles (str s) h = cc
services-accepted doubles (num n) h = cc
services-accepted doubles (bool b) h = cc

object-IsAccepted :
    (doubles : Doubles) (candidate : Fields)
    → candidate_codes doubles candidate ≡ []
    → (services : Fields) × IsAccepted doubles candidate services
unfolding candidate_codes
object-IsAccepted doubles candidate h =
    let parts = concat-eq-nil (candidate_parts doubles candidate) h in
    let (services, present, nonempty, turns, within) = services-accepted doubles _ parts.1.0 in
    (
      services,
      record {
        fields = parts.0;
        present = present;
        nonempty = nonempty;
        turns = turns;
        within = within;
        networks = parts.1.1.0;
      },
    )

pub validate_runtime_policy-IsAccepted :
    (doubles : Doubles) (candidate : Value) {normalized : Value}
    → validate_runtime_policy doubles candidate ≡ accepted normalized
    → (object : Fields) × (services : Fields) × (candidate ≡ obj object)
      × (normalized ≡ candidate)
      × IsAccepted doubles object services
unfolding validate_runtime_policy
validate_runtime_policy-IsAccepted doubles (obj object) h =
    let (found, same) = decide-accepted (obj object) (candidate_codes doubles object) h in
    let (services, facts) = object-IsAccepted doubles object found in
    (object, services, refl, same, facts)
validate_runtime_policy-IsAccepted doubles undefined h = cc
validate_runtime_policy-IsAccepted doubles null h = cc
validate_runtime_policy-IsAccepted doubles (arr vs) h = cc
validate_runtime_policy-IsAccepted doubles (str s) h = cc
validate_runtime_policy-IsAccepted doubles (num n) h = cc
validate_runtime_policy-IsAccepted doubles (bool b) h = cc

turn-ServiceIsContained :
    (doubles : Doubles) (v : Value) → turn_codes doubles v ≡ [] → ServiceIsContained v
unfolding turn_codes
turn-ServiceIsContained doubles (obj service) h = service_codes-IsContained doubles service h
turn-ServiceIsContained doubles undefined h = cc
turn-ServiceIsContained doubles null h = cc
turn-ServiceIsContained doubles (arr vs) h = cc
turn-ServiceIsContained doubles (str s) h = cc
turn-ServiceIsContained doubles (num n) h = cc
turn-ServiceIsContained doubles (bool b) h = cc

pub services-All :
    (doubles : Doubles) (services : List Value) (total : Limits)
    → (validate_services doubles services total).0 ≡ []
    → All ServiceIsContained services
unfolding validate_services
services-All doubles [] total h = tt
services-All doubles (v ∷ services) total h =
    let (here, later) = append-eq-nil (turn_codes doubles v) _ h in
    (
      turn-ServiceIsContained doubles v here,
      services-All doubles services (turn_totals doubles v total) later,
    )
