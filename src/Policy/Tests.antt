-- ===== src/Policy/Tests.antt =====
-- Runs of packages/runtime/src/policy.ts, and its theorems at concrete candidates.
use repo_assessment_kit.Prelude.{
  ◌+◌, ◌≤◌, String, Bool, true, false, none, some, List, [], ◌∷◌, ◌≡◌, ◌≢◌, refl, ltb, map,
  includes, All, inl, inr, ℕ, eqb, not, every, &&-eq-true, arith,
}
use repo_assessment_kit.Prelude.Dict.{lookup}
use repo_assessment_kit.Json.{
  Number, natural, negative, other, Value, null, obj, arr, str, num, bool, fields_of, no_items,
  item, Fields, no_fields, get, entries,
}
use repo_assessment_kit.Protocol.Grammar.{codes, is_digit}
use repo_assessment_kit.Policy.Text.{folded, is_relative_path, is_variable_name, is_credential_name}
use repo_assessment_kit.Policy.Tables.{max_total_memory}
use repo_assessment_kit.Policy.Dockerfile.{validate_dockerfile}
use repo_assessment_kit.Policy.Resources.{Doubles, parse_memory}
use repo_assessment_kit.Policy.Parts.{validate_build, validate_environment, accepts_user, values}
use repo_assessment_kit.Policy.Candidate.{accepted, rejected_with, validate_runtime_policy}
use repo_assessment_kit.Policy.Rejected.{validate_runtime_policy-forbidden}
use repo_assessment_kit.Policy.Credentials.{validate_runtime_policy-credential}
use repo_assessment_kit.Policy.Variables.{States, as_field, as_item}
use repo_assessment_kit.Policy.Interpolated.{validate_runtime_policy-interpolated}
use repo_assessment_kit.Policy.Contained.{ServiceIsContained}
use repo_assessment_kit.Policy.Isolated.{NetworksAreIsolated, validate_runtime_policy-IsContained}
use repo_assessment_kit.Policy.Memory.{
  MemoryIsBounded, total_memory, validate_runtime_policy-memory,
}

abbrev sum : Number → Number → Number
sum (natural a) (natural b) = natural (a + b)
sum x y = other "NaN"

abbrev greater : Number → Number → Bool
greater (natural a) (natural b) = ltb b a
greater (natural a) (negative b) = true
greater x y = false

abbrev number_of_value : Value → Number
number_of_value (num x) = x
number_of_value v = other "NaN"

-- Doubles as far as the runs need them.
abbrev doubles : Doubles
doubles = record { number_of = number_of_value; plus = sum; exceeds = greater }

abbrev web : List (String × Value)
web =
    ("image", str "registry.local/web@sha256:00")
    ∷ ("user", str "1000:1000")
    ∷ ("environment", arr (item (str "PORT=80") no_items))
    ∷ []

abbrev candidate_of : List (String × Value) → Value
candidate_of service =
    obj (fields_of (("services", obj (fields_of (("web", obj (fields_of service)) ∷ []))) ∷ []))

-- A plain service is accepted, and its candidate returned.
web-accepted : validate_runtime_policy doubles (candidate_of web) ≡ accepted (candidate_of web)
unfolding validate_runtime_policy validate_environment is_variable_name is_credential_name
web-accepted = refl

abbrev privileged : List (String × Value)
privileged =
    ("privileged", bool true)
    ∷ ("volumes", null)
    ∷ ("image", str "web:latest")
    ∷ ("user", str "root")
    ∷ ("environment", obj (fields_of (("DB_Password_FILE", str "/run/x") ∷ [])))
    ∷ []

abbrev privileged_codes : List String
privileged_codes =
    "BIND_OR_SOCKET_MOUNT_FORBIDDEN" ∷ "CREDENTIAL_ENVIRONMENT_FORBIDDEN"
    ∷ "MUTABLE_IMAGE_FORBIDDEN" ∷ "PRIVILEGED_FORBIDDEN" ∷ "ROOT_OR_NON_NUMERIC_USER_FORBIDDEN" ∷ []

privileged_rejected :
    validate_runtime_policy doubles (candidate_of privileged) ≡ rejected_with privileged_codes
unfolding validate_runtime_policy validate_environment is_variable_name is_credential_name
privileged_rejected = refl

dockerfile_rejected :
    validate_dockerfile (
      codes
        "# syntax\nFROM --platform=linux/amd64 node:20 AS base\r\nADD --chown=1 https://x /y\nUSER root\nRUN --mount=type=secret,id=x cat\nFROM scratch\n ADD [\"git://x\", \"/y\"]\nrun a --network=host")
    ≡ ("MUTABLE_IMAGE_FORBIDDEN" ∷ "REMOTE_DOCKERFILE_ADD_FORBIDDEN" ∷ "ROOT_USER_FORBIDDEN"
        ∷ "BUILDKIT_SECRET_FORBIDDEN" ∷ "REMOTE_DOCKERFILE_ADD_FORBIDDEN"
        ∷ "BUILD_NETWORK_OVERRIDE_FORBIDDEN" ∷ [])
unfolding validate_dockerfile
dockerfile_rejected = refl

memory_units :
    map parse_memory (
      str "512m"
      ∷ str " 2GiB "
      ∷ str "3ib"
      ∷ str "9007199254740992"
      ∷ str "2x"
      ∷ num (natural 7)
      ∷ num (natural 0)
      ∷ [])
    ≡ (some 536870912 ∷ some 2147483648 ∷ some 3 ∷ none ∷ none ∷ some 7 ∷ none ∷ [])
unfolding parse_memory
memory_units = refl

-- The text "0" gives a limit of 0 bytes, which the number 0 does not; Docker takes it for no limit.
memory_zero : parse_memory (str "0") ≡ some 0
unfolding parse_memory
memory_zero = refl

environment_rejected :
    validate_environment
      (arr (item (str "A=${B}") (item (str "DB_PASSWORD=1") (item (str "X") (item null no_items)))))
    ≡ ("ENVIRONMENT_INTERPOLATION_FORBIDDEN" ∷ "CREDENTIAL_ENVIRONMENT_FORBIDDEN"
        ∷ "ENVIRONMENT_INTERPOLATION_FORBIDDEN" ∷ "INVALID_ENVIRONMENT" ∷ "INVALID_ENVIRONMENT"
        ∷ [])
unfolding validate_environment is_variable_name is_credential_name
environment_rejected = refl

-- The user "00" passes, although it is the number 0.
users :
    map accepts_user (str "0:1" ∷ str "1:0" ∷ str "1:2:3" ∷ str "a" ∷ str "00" ∷ [])
    ≡ (false ∷ true ∷ false ∷ false ∷ true ∷ [])
unfolding accepts_user is_digit
users = refl

abbrev web_services : Fields
web_services = fields_of (("web", obj (fields_of web)) ∷ [])

abbrev privileged_services : Fields
privileged_services = fields_of (("web", obj (fields_of privileged)) ∷ [])

abbrev privileged_candidate : Fields
privileged_candidate = fields_of (("services", obj privileged_services) ∷ [])

validate_runtime_policy-IsContained_example :
    (candidate_of web ≡ candidate_of web)
    × (services : Fields) × (get (candidate_of web) "services" ≡ obj services)
    × (services ≢ no_fields)
    × All ServiceIsContained (values (entries services))
    × NetworksAreIsolated (get (candidate_of web) "networks")
validate_runtime_policy-IsContained_example =
    validate_runtime_policy-IsContained doubles (candidate_of web) web-accepted

validate_runtime_policy-memory_example :
    (services : Fields) × (get (candidate_of web) "services" ≡ obj services)
    × All MemoryIsBounded (values (entries services))
    × (total_memory (values (entries services)) ≤ max_total_memory)
validate_runtime_policy-memory_example =
    validate_runtime_policy-memory doubles (candidate_of web) web-accepted

validate_runtime_policy-forbidden_example :
    (listing : List String) × (validate_runtime_policy doubles (obj privileged_candidate)
      ≡ rejected_with listing)
    × (includes listing "BIND_OR_SOCKET_MOUNT_FORBIDDEN" ≡ true)
unfolding lookup get
validate_runtime_policy-forbidden_example =
    validate_runtime_policy-forbidden doubles privileged_candidate privileged_services
      (fields_of privileged) "web" "volumes" "BIND_OR_SOCKET_MOUNT_FORBIDDEN" refl refl refl refl

-- A service with a credential among the items of its environment, and one with an argument of its build
-- that is taken from the surroundings.
abbrev listed_variables : Value
listed_variables = arr (item (str "PORT=80") (item (str "DB_Password_FILE=/run/x") no_items))

abbrev built : Fields
built =
    fields_of
      (("context", str "web") ∷ ("args", obj (fields_of (("VERSION", str "v${TAG}") ∷ []))) ∷ [])

abbrev leaking : Fields
leaking = fields_of (("build", obj built) ∷ ("environment", listed_variables) ∷ [])

abbrev leaking_candidate : Fields
leaking_candidate = fields_of (("services", obj (fields_of (("web", obj leaking) ∷ []))) ∷ [])

leaking_rejected :
    validate_runtime_policy doubles (obj leaking_candidate)
    ≡ rejected_with
        ("CREDENTIAL_ENVIRONMENT_FORBIDDEN" ∷ "ENVIRONMENT_INTERPOLATION_FORBIDDEN" ∷ [])
unfolding validate_runtime_policy validate_environment is_variable_name is_credential_name
    validate_build is_relative_path
leaking_rejected = refl

differ : (a b : ℕ) → eqb a b ≡ false → a ≢ b
differ a b h e = ground arith

credential_stated : States (codes "DB_Password_FILE") (str "/run/x") listed_variables
credential_stated =
    as_item _ "DB_Password_FILE=/run/x" "/run/x" (inr (inl refl)) refl
      (no_equals (codes "DB_Password_FILE") refl) refl
  where
    no_equals : (cs : List ℕ) → every (λ c. not (eqb c b'=')) cs ≡ true → All (λ c. c ≢ b'=') cs
    no_equals [] h = tt
    no_equals (c ∷ cs) h =
        let (first, rest) = &&-eq-true (not (eqb c b'=')) _ h in
        (differ c b'=' (ground arith), no_equals cs rest)

validate_runtime_policy-credential_example :
    (listing : List String) × (validate_runtime_policy doubles (obj leaking_candidate)
      ≡ rejected_with listing)
    × (includes listing "CREDENTIAL_ENVIRONMENT_FORBIDDEN" ≡ true)
unfolding lookup get folded
validate_runtime_policy-credential_example =
    validate_runtime_policy-credential doubles leaking_candidate
      (fields_of (("web", obj leaking) ∷ [])) leaking "web" listed_variables (str "/run/x")
      (codes "DB_Password_FILE") refl refl (inl refl) credential_stated
      ("password", codes "_file", refl, refl, inr (codes "db", refl))

validate_runtime_policy-interpolated_example :
    (listing : List String) × (validate_runtime_policy doubles (obj leaking_candidate)
      ≡ rejected_with listing)
    × (includes listing "ENVIRONMENT_INTERPOLATION_FORBIDDEN" ≡ true)
unfolding lookup get
validate_runtime_policy-interpolated_example =
    validate_runtime_policy-interpolated doubles leaking_candidate
      (fields_of (("web", obj leaking) ∷ [])) leaking "web"
      (obj (fields_of (("VERSION", str "v${TAG}") ∷ []))) (str "v${TAG}") (codes "VERSION") refl
      refl (inr (built, refl, refl)) (as_field _ "VERSION" refl refl)
      (inr ("v${TAG}", refl, codes "v", codes "TAG}", refl))
