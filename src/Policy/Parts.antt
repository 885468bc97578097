-- ===== src/Policy/Parts.antt =====
-- The validation of a service's fields in packages/runtime/src/policy.ts. Each function gives the codes that
-- its source adds to the rejections, in order.

use Prim.Native.Char.{code}
use repo_assessment_kit.Prelude.{
  ℕ, String, Bool, true, false, not, ◌&&◌, Option, none, some, List, [], ◌∷◌, ◌++◌, eqb, any, map,
  if◌then◌else◌, ◌==◌,
}
use repo_assessment_kit.Json.{
  Fields, no_fields, Value, undefined, null, obj, arr, str, bool, items, entries, get, is_undefined,
  is_text,
}
use repo_assessment_kit.Protocol.Grammar.{codes, text_and}
use repo_assessment_kit.Policy.Text.{
  contains_part, same_codes, split_at, is_relative_path, is_variable_name, is_credential_name,
  is_numeric_user, rejects, concat,
}
use repo_assessment_kit.Policy.Dockerfile.{is_mutable_image, validate_dockerfile}
use repo_assessment_kit.Policy.Tables.{unknown_keys, build_keys, healthcheck_keys, network_keys}
use repo_assessment_kit.Policy.Resources.{unless_undefined}

-- `Object.values`.
abbrev pub values : List (String × Value) → List Value
values [] = []
values ((name, v) ∷ fs) = v ∷ values fs

-- The text before the first `=` and the text after it.
unfoldable pub at_equals : String → Option (String × String)
at_equals String.[] = none
at_equals (String.◌∷◌ c s) = elim (at_equals s) [
  | none ↦ if eqb (code c) b'=' then some ("", s) else none
  | some (name, rest) ↦ if eqb (code c) b'=' then some ("", s) else some (String.◌∷◌ c name, rest)
]

-- An item of a list of variables, as a name and its value.
unfoldable pub variable_of : Value → String × Value
unfolding at_equals
variable_of (str s) = elim (at_equals s) [
  | none ↦ (s, undefined)
  | some (name, rest) ↦ (name, str rest)
]
variable_of v = ("", v)

-- `value === undefined || typeof value === "string" && value.includes("${")`.
unfoldable pub is_interpolated : Value → Bool
unfolding contains_part
is_interpolated undefined = true
is_interpolated (str s) = contains_part (codes "${") (codes s)
is_interpolated _ = false

is_structured : Value → Bool
is_structured null = true
is_structured (obj fs) = true
is_structured (arr vs) = true
is_structured _ = false

unfoldable pub variable_codes : String × Value → List String
unfolding is_interpolated is_structured
variable_codes (name, v) = concat (
    rejects (not (is_variable_name (codes name))) "INVALID_ENVIRONMENT"
    ∷ rejects (is_credential_name (codes name)) "CREDENTIAL_ENVIRONMENT_FORBIDDEN"
    ∷ rejects (is_interpolated v) "ENVIRONMENT_INTERPOLATION_FORBIDDEN"
    ∷ rejects (is_structured v) "INVALID_ENVIRONMENT"
    ∷ [])

unfoldable pub variables_codes : List (String × Value) → List String
unfolding variable_codes
variables_codes [] = []
variables_codes (variable ∷ variables) = variable_codes variable ++ variables_codes variables

unfoldable pub validate_environment : Value → List String
unfolding variables_codes variable_of
validate_environment (obj fs) = variables_codes (entries fs)
validate_environment (arr vs) = variables_codes (map variable_of (items vs))
validate_environment _ = "INVALID_ENVIRONMENT" ∷ []

-- `safeRelativePath`.
unfoldable pub safe_relative_path : Value → Bool
safe_relative_path v = text_and (λ s. is_relative_path (codes s)) v

inline_codes : Value → List String
unfolding validate_dockerfile
inline_codes (str s) = validate_dockerfile (codes s)
inline_codes _ = "INVALID_BUILD_MODEL" ∷ []

unfoldable pub build_parts : Fields → List (List String)
unfolding safe_relative_path unknown_keys inline_codes validate_environment get
build_parts fs =
    unknown_keys fs build_keys
    ∷ rejects (not (safe_relative_path (get (obj fs) "context"))) "REMOTE_OR_ESCAPING_REFERENCE"
    ∷ unless_undefined (λ v. rejects (not (safe_relative_path v)) "REMOTE_OR_ESCAPING_REFERENCE")
        (get (obj fs) "dockerfile")
    ∷ unless_undefined inline_codes (get (obj fs) "dockerfile_inline")
    ∷ unless_undefined validate_environment (get (obj fs) "args")
    ∷ []

unfoldable pub validate_build : Value → List String
unfolding build_parts safe_relative_path
validate_build (str s) = rejects (not (safe_relative_path (str s))) "REMOTE_OR_ESCAPING_REFERENCE"
validate_build (obj fs) = concat (build_parts fs)
validate_build _ = "INVALID_BUILD_MODEL" ∷ []

-- `value === true`.
abbrev pub is_true : Value → Bool
is_true (bool b) = b
is_true _ = false

unfoldable pub network_parts : Fields → List (List String)
unfolding unknown_keys get
network_parts fs =
    let driver = get (obj fs) "driver" in
    let internal = get (obj fs) "internal" in
    unknown_keys fs network_keys
    ∷ rejects (is_true (get (obj fs) "external")) "EXTERNAL_NETWORK_FORBIDDEN"
    ∷ rejects (not (is_undefined driver) && not (is_text driver "bridge"))
        "CUSTOM_NETWORK_DRIVER_FORBIDDEN"
    ∷ rejects (not (is_undefined internal) && not (is_true internal))
        "NON_INTERNAL_NETWORK_FORBIDDEN"
    ∷ []

unfoldable pub network_codes : Value → List String
unfolding network_parts
network_codes (obj fs) = concat (network_parts fs)
network_codes _ = "INVALID_NETWORK_MODEL" ∷ []

unfoldable pub networks_codes : List Value → List String
unfolding network_codes
networks_codes [] = []
networks_codes (network ∷ networks) = network_codes network ++ networks_codes networks

unfoldable pub validate_networks : Value → List String
unfolding networks_codes
validate_networks (obj fs) = networks_codes (values (entries fs))
validate_networks _ = "INVALID_NETWORK_MODEL" ∷ []

-- `typeof item !== "string" || item.length === 0`.
no_name : Value → Bool
no_name (str s) = s == ""
no_name _ = true

-- `configuration !== null && (!isRecord(configuration) || Object.keys(configuration).length > 0)`.
overrides_network : Value → Bool
overrides_network null = false
overrides_network (obj no_fields) = false
overrides_network _ = true

-- Each configuration may add the code again.
override_codes : List Value → List String
unfolding overrides_network
override_codes [] = []
override_codes (v ∷ vs) =
    rejects (overrides_network v) "TARGET_NETWORK_OVERRIDE_FORBIDDEN" ++ override_codes vs

unfoldable pub validate_service_networks : Value → List String
unfolding no_name override_codes
validate_service_networks (arr vs) = rejects (any no_name (items vs)) "INVALID_NETWORK_MODEL"
validate_service_networks (obj fs) = override_codes (values (entries fs))
validate_service_networks _ = "INVALID_NETWORK_MODEL" ∷ []

unfoldable pub validate_healthcheck : Value → List String
unfolding unknown_keys get
validate_healthcheck (obj fs) =
    unknown_keys fs healthcheck_keys
    ++ rejects (is_true (get (obj fs) "disable")) "HEALTHCHECK_DISABLE_FORBIDDEN"
validate_healthcheck _ = "INVALID_HEALTHCHECK" ∷ []

-- The two tests on `service["image"]`.
unfoldable pub image_codes : Value → List String
unfolding is_mutable_image
image_codes undefined = []
image_codes (str s) = rejects (is_mutable_image (codes s)) "MUTABLE_IMAGE_FORBIDDEN"
image_codes _ = "INVALID_IMAGE_REFERENCE" ∷ []

unfoldable pub first_is_zero : List (List ℕ) → Bool
unfolding same_codes
first_is_zero [] = false
first_is_zero (part ∷ parts) = same_codes part (codes "0")

-- The test on `service["user"]` where it is defined.
unfoldable pub accepts_user : Value → Bool
unfolding is_numeric_user first_is_zero split_at
accepts_user v =
    text_and (λ s. is_numeric_user (codes s) && not (first_is_zero (split_at b':' (codes s)))) v
