-- ===== src/Policy/Candidate.antt =====
-- `validateRuntimePolicy` of packages/runtime/src/policy.ts. An accepted candidate is returned as a frozen copy,
-- which is the same value here.
use repo_assessment_kit.Prelude.{
  ◌+◌, String, Bool, not, ◌&&◌, ◌||◌, Option, none, some, List, [], ◌∷◌, ◌++◌, ltb,
}
use repo_assessment_kit.Prelude.Dict.{lookup}
use repo_assessment_kit.Json.{
  Number, Fields, no_fields, Value, obj, natural, entries, keys, get, is_undefined,
}
use repo_assessment_kit.Protocol.Shape.{sort}
use repo_assessment_kit.Service.Reconcile.{unique}
use repo_assessment_kit.Policy.Text.{rejects, concat}
use repo_assessment_kit.Policy.Tables.{
  unknown_keys, top_level_keys, service_keys, forbidden_service_keys, names_of, max_total_memory,
}
use repo_assessment_kit.Policy.Resources.{
  Doubles, Limits, limits_or_default, unless_undefined, validate_deploy,
}
use repo_assessment_kit.Policy.Parts.{
  values, validate_environment, validate_build, validate_networks, validate_service_networks,
  validate_healthcheck, image_codes, accepts_user,
}

pub data RuntimePolicyResult : Type 0 where
  accepted : (normalized : Value) → RuntimePolicyResult
  rejected_with : (rejection_codes : List String) → RuntimePolicyResult

abbrev pub code_of : Option String → List String
code_of none = []
code_of (some rejection) = rejection ∷ []

-- The codes that a table has for the fields, in the order of the fields.
unfoldable pub forbidden_codes : List (String × String) → List String → List String
unfolding lookup
forbidden_codes table [] = []
forbidden_codes table (key ∷ keys) = code_of (lookup key table) ++ forbidden_codes table keys

abbrev pub known_service_keys : List String
known_service_keys = service_keys ++ names_of forbidden_service_keys

unfoldable pub user_codes : Value → List String
unfolding accepts_user
user_codes v = rejects (not (accepts_user v)) "ROOT_OR_NON_NUMERIC_USER_FORBIDDEN"

unfoldable pub service_limits : Doubles → Fields → List String × Limits
unfolding validate_deploy get
service_limits doubles fs = limits_or_default (validate_deploy doubles) (get (obj fs) "deploy")

-- The codes of a service that is an object, statement by statement.
unfoldable pub service_parts : Doubles → Fields → List (List String)
unfolding forbidden_codes unknown_keys image_codes user_codes service_limits get
service_parts doubles fs =
    forbidden_codes forbidden_service_keys (keys fs)
    ∷ unknown_keys fs known_service_keys
    ∷ rejects (is_undefined (get (obj fs) "image") && is_undefined (get (obj fs) "build"))
        "SERVICE_SOURCE_REQUIRED"
    ∷ image_codes (get (obj fs) "image")
    ∷ unless_undefined user_codes (get (obj fs) "user")
    ∷ unless_undefined validate_environment (get (obj fs) "environment")
    ∷ unless_undefined validate_build (get (obj fs) "build")
    ∷ unless_undefined validate_service_networks (get (obj fs) "networks")
    ∷ unless_undefined validate_healthcheck (get (obj fs) "healthcheck")
    ∷ (service_limits doubles fs).0
    ∷ []

unfoldable pub service_codes : Doubles → Fields → List String
unfolding service_parts
service_codes doubles fs = concat (service_parts doubles fs)

-- `totalCpus += resources.cpus; totalMemory += resources.memory`.
unfoldable pub charge : Doubles → Limits → Limits → Limits
charge doubles limits total = record {
  cpus = doubles.plus total.cpus limits.cpus;
  memory = total.memory + limits.memory;
}

-- One turn of the loop over the services: the codes, and the totals after it.
unfoldable pub turn_codes : Doubles → Value → List String
unfolding service_codes
turn_codes doubles (obj fs) = service_codes doubles fs
turn_codes doubles _ = "INVALID_SERVICE_MODEL" ∷ []

unfoldable pub turn_totals : Doubles → Value → Limits → Limits
unfolding service_limits charge
turn_totals doubles (obj fs) total = charge doubles (service_limits doubles fs).1 total
turn_totals doubles _ total = total

unfoldable pub validate_services : Doubles → List Value → Limits → List String × Limits
unfolding turn_codes turn_totals
validate_services doubles [] total = ([], total)
validate_services doubles (v ∷ services) total =
    let others = validate_services doubles services (turn_totals doubles v total) in
    (turn_codes doubles v ++ others.0, others.1)

abbrev max_total_cpus : Number
max_total_cpus = natural 3

unfoldable pub exceeds_total : Doubles → Limits → Bool
exceeds_total doubles total =
    doubles.exceeds total.cpus max_total_cpus || ltb max_total_memory total.memory

abbrev pub no_limits : Limits
no_limits = record { cpus = natural 0; memory = 0 }

unfoldable pub services_codes : Doubles → Value → List String
unfolding validate_services exceeds_total
services_codes doubles (obj no_fields) = "INVALID_RUNTIME_MODEL" ∷ []
services_codes doubles (obj fs) =
    let services = validate_services doubles (values (entries fs)) no_limits in
    services.0 ++ rejects (exceeds_total doubles services.1) "TOTAL_RESOURCE_LIMIT_EXCEEDED"
services_codes doubles _ = "INVALID_RUNTIME_MODEL" ∷ []

unfoldable pub candidate_parts : Doubles → Fields → List (List String)
unfolding unknown_keys services_codes validate_networks get
candidate_parts doubles fs =
    unknown_keys fs top_level_keys
    ∷ services_codes doubles (get (obj fs) "services")
    ∷ unless_undefined validate_networks (get (obj fs) "networks")
    ∷ []

unfoldable pub candidate_codes : Doubles → Fields → List String
unfolding candidate_parts
candidate_codes doubles fs = concat (candidate_parts doubles fs)

-- `rejections.size > 0`: the codes are a set.
unfoldable pub decide : Value → List String → RuntimePolicyResult
unfolding sort unique
decide candidate [] = accepted candidate
decide candidate (rejection ∷ others) = rejected_with (sort (unique [] (rejection ∷ others)))

unfoldable pub validate_runtime_policy : Doubles → Value → RuntimePolicyResult
unfolding candidate_codes decide
validate_runtime_policy doubles (obj fs) = decide (obj fs) (candidate_codes doubles fs)
validate_runtime_policy doubles _ = rejected_with ("INVALID_RUNTIME_MODEL" ∷ [])
