-- ===== src/Policy/Variables.antt =====
-- The variables that a candidate of packages/runtime/src/policy.ts states, in the forms that the source reads,
-- and how what `validateEnvironment` finds in one of them reaches the rejection codes.
use Prim.Native.Char.{Char, code as code_point}
use repo_assessment_kit.Prelude.{
  ℕ, ◌≡◌, ◌≢◌, refl, ap, ◌∙◌, ◌⊎◌, inl, inr, String, true, false, not, none, some, List, [], ◌∷◌,
  ◌++◌, map, eqb, includes, arith, ◌==◌, eq_iff, Bool-cases, Option-cases, All,
}
use repo_assessment_kit.Prelude.Dict.{lookup}
use repo_assessment_kit.Json.{Fields, Value, undefined, obj, arr, str, get, entries, items, Items}
use repo_assessment_kit.Protocol.Grammar.{codes}
use repo_assessment_kit.Policy.Text.{
  contains_part, is_credential_name, is_variable_name, rejects, concat,
}
use repo_assessment_kit.Policy.Resources.{Doubles, unless_undefined}
use repo_assessment_kit.Policy.Parts.{
  at_equals, variable_of, is_interpolated, variable_codes, variables_codes, validate_environment,
  build_parts, validate_build,
}
use repo_assessment_kit.Policy.Candidate.{service_parts, service_codes}
use repo_assessment_kit.Policy.Rejected.{includes-first, includes-second}

abbrev Member : List Value → Value → Type 0
Member [] v = ⊥
Member (w ∷ ws) v = (w ≡ v) ⊎ Member ws v

abbrev pub NoEquals : List ℕ → Type 0
NoEquals name = All (λ c. c ≢ b'=') name

-- The variables state a value under a name: as a field of an object, as an item `name=value` of a list,
-- or as an item that is a name alone, whose value is left undefined.
pub data States (name : List ℕ) (v : Value) : Value → Type 0 where
  as_field :
      (fs : Fields) (field : String)
      → codes field ≡ name
      → lookup field (entries fs) ≡ some v
      → States name v (obj fs)
  as_item :
      (vs : Items) (s value : String)
      → Member (items vs) (str s)
      → codes s ≡ name ++ (b'=' ∷ codes value)
      → NoEquals name
      → v ≡ str value
      → States name v (arr vs)
  as_name :
      (vs : Items) (s : String)
      → Member (items vs) (str s)
      → codes s ≡ name
      → NoEquals name
      → v ≡ undefined
      → States name v (arr vs)

-- Where a service has variables: its environment, and the arguments of its build.
abbrev pub AreVariables : Fields → Value → Type 0
AreVariables service variables =
    (get (obj service) "environment" ≡ variables)
    ⊎ ((build : Fields) × (get (obj service) "build" ≡ obj build)
        × (get (obj build) "args" ≡ variables))

split_here :
    (c : Char) (s : String)
    → (eqb (code_point c) b'=') ≡ true
    → at_equals (String.◌∷◌ c s) ≡ some ("", s)
unfolding at_equals
split_here c s here = elim (Option-cases (at_equals s)) [
  | inl missing ↦ rw (missing, here) refl
  | inr ((name, rest), found) ↦ rw (found, here) refl
]

split_later :
    (c : Char) (s : String) {name rest : String}
    → (eqb (code_point c) b'=') ≡ false
    → at_equals s ≡ some (name, rest)
    → at_equals (String.◌∷◌ c s) ≡ some (String.◌∷◌ c name, rest)
unfolding at_equals
split_later c s other found = rw (found, other) refl

split_never :
    (c : Char) (s : String)
    → (eqb (code_point c) b'=') ≡ false
    → at_equals s ≡ none
    → at_equals (String.◌∷◌ c s) ≡ none
unfolding at_equals
split_never c s other missing = rw (missing, other) refl

-- `at_equals` finds the first `=`.
at_equals-found :
    (s : String) (name value : List ℕ)
    → codes s ≡ name ++ (b'=' ∷ value)
    → NoEquals name
    → (n : String) × (w : String) × (at_equals s ≡ some (n, w))
      × (codes n ≡ name)
      × (codes w ≡ value)
at_equals-found String.[] [] value h plain = cc
at_equals-found String.[] (c ∷ name) value h plain = cc
at_equals-found (String.◌∷◌ c s) [] value h plain =
    let same : code_point c ≡ b'=' = cc in
    let rest : codes s ≡ value = cc in ("", s, split_here c s (ground arith), refl, rest)
at_equals-found (String.◌∷◌ c s) (d ∷ name) value h (ne, plain) =
    let same : code_point c ≡ d = cc in
    let rest : codes s ≡ name ++ (b'=' ∷ value) = cc in
    let other : eqb (code_point c) b'=' ≡ false = ground (arith, λ (e : d ≡ b'='). ne e) in
    let (n, w, found, named, valued) = at_equals-found s name value rest plain in
    (
      String.◌∷◌ c n,
      w,
      split_later c s other found,
      ap (λ x. x ∷ codes n) same ∙ ap (λ t. d ∷ t) named,
      valued,
    )

at_equals-missing : (s : String) → NoEquals (codes s) → at_equals s ≡ none
at_equals-missing String.[] plain = unfold at_equals in refl
at_equals-missing (String.◌∷◌ c s) (ne, plain) =
    let other : eqb (code_point c) b'=' ≡ false =
      ground (arith, λ (e : code_point c ≡ b'='). ne e) in
    split_never c s other (at_equals-missing s plain)

variables-report :
    (variables : List (String × Value)) (name code : String) {v : Value}
    → lookup name variables ≡ some v
    → includes (variable_codes (name, v)) code ≡ true
    → includes (variables_codes variables) code ≡ true
unfolding lookup variables_codes
variables-report [] name code found reported = cc
variables-report ((n, w) ∷ variables) name code {v} found reported = elim (Bool-cases (n == name)) [
  | inl same ↦
      let e : n ≡ name = (eq_iff n name).0 same in
      let here : w ≡ v = ground arith in
      rw (e, here) (includes-first (variable_codes (name, v)) _ code reported)
  | inr differs ↦
      includes-second (variable_codes (n, w)) _ code
        (variables-report variables name code (rw differs at found) reported)
]

items-report :
    (vs : List Value) (v : Value) (code : String)
    → Member vs v
    → includes (variable_codes (variable_of v)) code ≡ true
    → includes (variables_codes (map variable_of vs)) code ≡ true
unfolding variables_codes
items-report [] v code among reported = absurd among
items-report (w ∷ vs) v code (inl same) reported =
    rw same (includes-first (variable_codes (variable_of v)) _ code reported)
items-report (w ∷ vs) v code (inr among) reported =
    includes-second (variable_codes (variable_of w)) _ code (items-report vs v code among reported)

-- The variable as the validation reads it: under the same name, with a value that is interpolated if the
-- stated one is; and what it adds for this variable is added for all of them.
pub stated-variable :
    (variables : Value) (name : List ℕ) (v : Value)
    → States name v variables
    → (n : String) × (w : Value) × (codes n ≡ name)
      × (is_interpolated w ≡ is_interpolated v)
      × ((code : String)
          → includes (variable_codes (n, w)) code ≡ true
          → includes (validate_environment variables) code ≡ true)
unfolding validate_environment
stated-variable _ name v (as_field fs field named found) = (
  field,
  v,
  named,
  refl,
  λ code reported. variables-report (entries fs) field code found reported,
)
stated-variable _ name v (as_item vs s value among split plain valued) =
    let (n, w, found, named, same) = at_equals-found s name (codes value) split plain in
    let read : variable_of (str s) ≡ (n, str w) = rw (variable_of, found) refl in
    (
      n,
      str w,
      named,
      rw valued (unfold is_interpolated in ap (contains_part (codes "${")) same),
      λ code reported. items-report (items vs) (str s) code among (rw read reported),
    )
stated-variable _ name v (as_name vs s among named plain absent) =
    let read : variable_of (str s) ≡ (s, undefined) =
      rw (variable_of, at_equals-missing s (rw named plain)) refl in
    (
      s,
      undefined,
      named,
      rw absent refl,
      λ code reported. items-report (items vs) (str s) code among (rw read reported),
    )

pub credential-report :
    (name : String) (v : Value)
    → is_credential_name (codes name) ≡ true
    → includes (variable_codes (name, v)) "CREDENTIAL_ENVIRONMENT_FORBIDDEN" ≡ true
unfolding variable_codes
credential-report name v h =
    includes-second (rejects (not (is_variable_name (codes name))) "INVALID_ENVIRONMENT") _ _ (
      includes-first (rejects (is_credential_name (codes name)) "CREDENTIAL_ENVIRONMENT_FORBIDDEN")
        _ _ (rw h refl))

-- A part of what a function adds.
abbrev IsPart : List (List String) → List String → Type 0
IsPart [] part = ⊥
IsPart (p ∷ ps) part = (p ≡ part) ⊎ IsPart ps part

part-report :
    (parts : List (List String)) (part : List String) (code : String)
    → IsPart parts part
    → includes part code ≡ true
    → includes (concat parts) code ≡ true
part-report [] part code is_part reported = absurd is_part
part-report (p ∷ ps) part code (inl same) reported =
    includes-first p (concat ps) code (rw same reported)
part-report (p ∷ ps) part code (inr is_part) reported =
    includes-second p (concat ps) code (part-report ps part code is_part reported)

defined :
    (variables : Value) (name : List ℕ) (v : Value) (code : String)
    → States name v variables
    → includes (validate_environment variables) code ≡ true
    → includes (unless_undefined validate_environment variables) code ≡ true
defined _ name v code (as_field fs field named found) reported = reported
defined _ name v code (as_item vs s value among split plain valued) reported = reported
defined _ name v code (as_name vs s among named plain absent) reported = reported

build-report :
    (build : Fields) (variables : Value) (name : List ℕ) (v : Value) (code : String)
    → get (obj build) "args" ≡ variables
    → States name v variables
    → includes (validate_environment variables) code ≡ true
    → includes (validate_build (obj build)) code ≡ true
unfolding validate_build build_parts
build-report build variables name v code present stated reported =
    part-report (build_parts build) (unless_undefined validate_environment (get (obj build) "args"))
      code (inr (inr (inr (inr (inl refl)))))
      (rw present (defined variables name v code stated reported))

-- What is added for the variables of a service is among the codes of the service.
pub variables-reported :
    (doubles : Doubles) (service : Fields) (variables : Value) (name : List ℕ) (v : Value)
    (code : String)
    → AreVariables service variables
    → States name v variables
    → includes (validate_environment variables) code ≡ true
    → includes (service_codes doubles service) code ≡ true
unfolding service_codes service_parts
variables-reported doubles service variables name v code (inl present) stated reported =
    part-report (service_parts doubles service)
      (unless_undefined validate_environment (get (obj service) "environment")) code
      (inr (inr (inr (inr (inr (inl refl))))))
      (rw present (defined variables name v code stated reported))
variables-reported doubles service variables name v code (inr (build, built, present)) stated
      reported =
    part-report (service_parts doubles service)
      (unless_undefined validate_build (get (obj service) "build")) code
      (inr (inr (inr (inr (inr (inr (inl refl)))))))
      (rw built (build-report build variables name v code present stated reported))
