-- ===== src/Policy/Interpolated.antt =====
-- The variables of packages/runtime/src/policy.ts that would take their value from the surroundings.
use repo_assessment_kit.Prelude.{
  ℕ, ◌≡◌, refl, ◌∙◌, ◌⊎◌, inl, inr, String, true, not, some, List, ◌++◌, includes,
}
use repo_assessment_kit.Prelude.Dict.{lookup}
use repo_assessment_kit.Json.{Fields, Value, undefined, obj, str, get, entries}
use repo_assessment_kit.Protocol.Grammar.{codes}
use repo_assessment_kit.Policy.Text.{is_credential_name, is_variable_name, rejects}
use repo_assessment_kit.Policy.Text.Found.{contains_part-found}
use repo_assessment_kit.Policy.Resources.{Doubles}
use repo_assessment_kit.Policy.Parts.{is_interpolated, variable_codes}
use repo_assessment_kit.Policy.Candidate.{rejected_with, validate_runtime_policy}
use repo_assessment_kit.Policy.Rejected.{includes-first, includes-second, service-rejected}
use repo_assessment_kit.Policy.Variables.{States, AreVariables, stated-variable, variables-reported}

interpolation-report :
    (name : String) (v : Value)
    → is_interpolated v ≡ true
    → includes (variable_codes (name, v)) "ENVIRONMENT_INTERPOLATION_FORBIDDEN" ≡ true
unfolding variable_codes
interpolation-report name v h =
    includes-second (rejects (not (is_variable_name (codes name))) "INVALID_ENVIRONMENT") _ _ (
      includes-second (rejects (is_credential_name (codes name)) "CREDENTIAL_ENVIRONMENT_FORBIDDEN")
        _ _
        (includes-first (rejects (is_interpolated v) "ENVIRONMENT_INTERPOLATION_FORBIDDEN") _ _
          (rw h refl)))

-- A value that is left undefined, or a text with `${` in it.
abbrev pub IsInterpolated : Value → Type 0
IsInterpolated v =
    (v ≡ undefined)
    ⊎ ((s : String) × (v ≡ str s)
        × (before : List ℕ) × (rest : List ℕ) × (codes s ≡ before ++ (codes "${" ++ rest)))

is_interpolated-found : (v : Value) → IsInterpolated v → is_interpolated v ≡ true
unfolding is_interpolated
is_interpolated-found v (inl absent) = rw absent refl
is_interpolated-found v (inr (s, e, before, rest, found)) =
    rw (e, is_interpolated, found) (contains_part-found (codes "${") before rest)

-- A candidate one of whose services has a variable that takes its value from elsewhere, since it states
-- none or a text with `${` in it, is rejected, and the codes say so. The variable may stand in the
-- service's environment or among the arguments of its build, as a field of an object or as an item of a
-- list; a field that states none is one that holds `undefined`.
pub validate_runtime_policy-interpolated :
    (doubles : Doubles) (candidate services service : Fields) (service_name : String)
    (variables v : Value) (name : List ℕ)
    → get (obj candidate) "services" ≡ obj services
    → lookup service_name (entries services) ≡ some (obj service)
    → AreVariables service variables
    → States name v variables
    → IsInterpolated v
    → (listing : List String) × (validate_runtime_policy doubles (obj candidate)
        ≡ rejected_with listing)
      × (includes listing "ENVIRONMENT_INTERPOLATION_FORBIDDEN" ≡ true)
validate_runtime_policy-interpolated doubles candidate services service service_name variables v
      name present found place stated elsewhere =
    let (n, w, same, alike, reports) = stated-variable variables name v stated in
    let code : String = "ENVIRONMENT_INTERPOLATION_FORBIDDEN" in
    service-rejected doubles candidate services service_name code present found (
      variables-reported doubles service variables name v code place stated
        (reports code (interpolation-report n w (alike ∙ is_interpolated-found v elsewhere))))
