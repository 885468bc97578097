-- ===== src/Policy/Rejected.antt =====
-- The codes that `validateRuntimePolicy` of packages/runtime/src/policy.ts returns for a candidate it rejects.
use repo_assessment_kit.Prelude.{
  ◌≡◌, refl, ◌∙◌, String, true, some, List, [], ◌∷◌, ◌++◌, includes, arith, ◌==◌, eq_iff, eq_refl,
  Bool-cases, inl, inr,
}
use repo_assessment_kit.Prelude.Dict.{lookup}
use repo_assessment_kit.Json.{Fields, no_fields, property, Value, obj, get, entries, keys}
use repo_assessment_kit.Policy.Tables.{unknown_keys, forbidden_service_keys, top_level_keys}
use repo_assessment_kit.Policy.Resources.{Doubles, Limits}
use repo_assessment_kit.Policy.Parts.{values}
use repo_assessment_kit.Policy.Codes.{includes-append, listed, includes-listed}
use repo_assessment_kit.Policy.Candidate.{
  rejected_with, code_of, forbidden_codes, service_codes, turn_codes, turn_totals,
  validate_services, no_limits, services_codes, candidate_codes, decide, validate_runtime_policy,
}

decide-reports :
    (candidate : Value) (found : List String) (code : String)
    → includes found code ≡ true
    → decide candidate found ≡ rejected_with (listed found)
unfolding decide
decide-reports candidate [] code h = cc
decide-reports candidate (rejection ∷ others) code h = refl

pub includes-first :
    (first rest : List String) (code : String)
    → includes first code ≡ true
    → includes (first ++ rest) code ≡ true
includes-first first rest code h = ground (arith, includes-append first rest code)

pub includes-second :
    (first rest : List String) (code : String)
    → includes rest code ≡ true
    → includes (first ++ rest) code ≡ true
includes-second first rest code h = ground (arith, includes-append first rest code)

services-report :
    (doubles : Doubles) (services : List (String × Value)) (total : Limits) (name code : String)
    {service : Fields}
    → lookup name services ≡ some (obj service)
    → includes (service_codes doubles service) code ≡ true
    → includes (validate_services doubles (values services) total).0 code ≡ true
unfolding lookup validate_services
services-report doubles [] total name code found reported = cc
services-report doubles ((n, v) ∷ services) total name code {service} found reported =
    elim (Bool-cases (n == name)) [
      | inl same ↦
          let found_here : v ≡ obj service = ground arith in
          rw found_here (includes-first (service_codes doubles service) _ code reported)
      | inr differs ↦ includes-second (turn_codes doubles v) _ code (
          services-report doubles services (turn_totals doubles v total) name code
            (rw differs at found) reported)
    ]

forbidden-reports :
    (table : List (String × String)) (fields : List String) (key code : String)
    → includes fields key ≡ true
    → lookup key table ≡ some code
    → includes (forbidden_codes table fields) code ≡ true
unfolding forbidden_codes
forbidden-reports table [] key code named forbidden = cc
forbidden-reports table (field ∷ fields) key code named forbidden =
    elim (Bool-cases (field == key)) [
      | inl same ↦
          let e : field ≡ key = (eq_iff field key).0 same in
          rw (e, forbidden) (includes-first (code ∷ []) _ code (rw (eq_refl code) refl))
      | inr differs ↦
          includes-second (code_of (lookup field table)) _ code
            (forbidden-reports table fields key code (rw differs at named) forbidden)
    ]

nonempty-report :
    (doubles : Doubles) (services : Fields) (name code : String) {service : Fields}
    → lookup name (entries services) ≡ some (obj service)
    → includes (service_codes doubles service) code ≡ true
    → includes (services_codes doubles (obj services)) code ≡ true
unfolding services_codes lookup
nonempty-report doubles no_fields name code found reported = cc
nonempty-report doubles (property n v others) name code found reported =
    includes-first _ _ code
      (services-report doubles ((n, v) ∷ entries others) no_limits name code found reported)

-- A code that a service gets is among those of the candidate.
candidate-report :
    (doubles : Doubles) (candidate services : Fields) (name code : String) {service : Fields}
    → get (obj candidate) "services" ≡ obj services
    → lookup name (entries services) ≡ some (obj service)
    → includes (service_codes doubles service) code ≡ true
    → includes (candidate_codes doubles candidate) code ≡ true
unfolding candidate_codes
candidate-report doubles candidate services name code present found reported =
    includes-second (unknown_keys candidate top_level_keys) _ code (
      includes-first (services_codes doubles (get (obj candidate) "services")) _ code
        (rw present (nonempty-report doubles services name code found reported)))

-- So the candidate is rejected, and the code is listed.
pub service-rejected :
    (doubles : Doubles) (candidate services : Fields) (name code : String) {service : Fields}
    → get (obj candidate) "services" ≡ obj services
    → lookup name (entries services) ≡ some (obj service)
    → includes (service_codes doubles service) code ≡ true
    → (listing : List String) × (validate_runtime_policy doubles (obj candidate)
        ≡ rejected_with listing)
      × (includes listing code ≡ true)
unfolding validate_runtime_policy
service-rejected doubles candidate services name code present found here =
    let reported = candidate-report doubles candidate services name code present found here in
    (
      listed (candidate_codes doubles candidate),
      decide-reports (obj candidate) (candidate_codes doubles candidate) code reported,
      includes-listed (candidate_codes doubles candidate) code ∙ reported,
    )

-- A candidate one of whose services has a forbidden field is rejected, and the codes name that field's
-- rejection, whatever else the candidate holds.
pub validate_runtime_policy-forbidden :
    (doubles : Doubles) (candidate services service : Fields) (name key code : String)
    → get (obj candidate) "services" ≡ obj services
    → lookup name (entries services) ≡ some (obj service)
    → includes (keys service) key ≡ true
    → lookup key forbidden_service_keys ≡ some code
    → (listing : List String) × (validate_runtime_policy doubles (obj candidate)
        ≡ rejected_with listing)
      × (includes listing code ≡ true)
unfolding service_codes
validate_runtime_policy-forbidden doubles candidate services service name key code present found
      named forbidden =
    service-rejected doubles candidate services name code present found (
      includes-first (forbidden_codes forbidden_service_keys (keys service)) _ code
        (forbidden-reports forbidden_service_keys (keys service) key code named forbidden))
