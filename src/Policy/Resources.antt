-- ===== src/Policy/Resources.antt =====
-- `parseCpu`, `parseMemory`, `validateResources` and `validateDeploy` of packages/runtime/src/policy.ts. A
-- function that adds codes and returns the limits gives both.
use repo_assessment_kit.Prelude.{
  ℕ, ◌+◌, ◌-◌, ◌*◌, ◌^◌, String, Bool, true, not, ◌&&◌, ◌||◌, Option, none, some, List, [], ◌∷◌,
  leb, ltb, eqb, ◌==◌, if◌then◌else◌,
}
use repo_assessment_kit.Json.{
  Fields, Number, natural, other, Value, undefined, obj, num, str, get, is_undefined,
}
use repo_assessment_kit.Protocol.Grammar.{codes, is_digit}
use repo_assessment_kit.Policy.Text.{folded, same_codes, trim, rejects, concat}
use repo_assessment_kit.Policy.Tables.{
  unknown_keys, deploy_keys, resource_keys, resource_value_keys, max_service_memory,
  max_service_pids,
}

-- The arithmetic of doubles: `Number(value)`, where the value has no conversion of its own, `x + y` and
-- `x > y`.
pub record Doubles : Type 0 where
  pub number_of : Value → Number
  pub plus : Number → Number → Number
  pub exceeds : Number → Number → Bool

-- What a service may use.
pub record Limits : Type 0 where
  pub cpus : Number
  pub memory : ℕ

abbrev pub max_service_cpus : Number
max_service_cpus = natural 1

abbrev pub default_limits : Limits
default_limits = record { cpus = max_service_cpus; memory = max_service_memory }

-- `Number.isFinite`.
is_finite : Number → Bool
is_finite (other s) = not (s == "NaN" || s == "Infinity" || s == "-Infinity")
is_finite _ = true

positive_number : Doubles → Number → Option Number
unfolding is_finite
positive_number doubles x = if is_finite x && doubles.exceeds x (natural 0) then some x else none

unfoldable pub parse_cpu : Doubles → Value → Option Number
unfolding positive_number
parse_cpu doubles (num x) = positive_number doubles x
parse_cpu doubles (str s) = positive_number doubles (doubles.number_of (str s))
parse_cpu doubles _ = none

-- `Number.isSafeInteger` of an integer that is not negative.
abbrev pub is_safe : ℕ → Bool
is_safe n = leb n 9007199254740991

-- The digits read before `n`, and the rest of the text.
unfoldable pub read_amount : ℕ → List ℕ → ℕ × List ℕ
unfolding is_digit
read_amount n [] = (n, [])
read_amount n (c ∷ cs) =
    let more = read_amount (n * 10 + (c - b'0')) cs in if is_digit c then more else (n, c ∷ cs)

-- `([kmgt])?i?b?$`, as the power of 1024.
without_unit : List ℕ → Bool
unfolding same_codes
without_unit cs =
    same_codes cs []
    || same_codes cs (codes "i")
    || same_codes cs (codes "b")
    || same_codes cs (codes "ib")

unfoldable pub exponent_of : List ℕ → Option ℕ
unfolding without_unit
exponent_of [] = some 0
exponent_of (c ∷ cs) =
    if without_unit (c ∷ cs)
    then some 0
    else if not (without_unit cs)
    then none
    else if eqb c b'k'
    then some 1
    else if eqb c b'm'
    then some 2
    else if eqb c b'g'
    then some 3
    else if eqb c b't'
    then some 4
    else none

safe_bytes : ℕ → Option ℕ → Option ℕ
safe_bytes amount none = none
safe_bytes amount (some exponent) =
    if is_safe (amount * 1024 ^ exponent) then some (amount * 1024 ^ exponent) else none

memory_text : List ℕ → Option ℕ
unfolding is_digit read_amount exponent_of safe_bytes folded
memory_text [] = none
memory_text (c ∷ cs) =
    if is_digit c
    then safe_bytes (read_amount 0 (c ∷ cs)).0 (exponent_of (folded (read_amount 0 (c ∷ cs)).1))
    else none

-- A double of at least 2^53 is never safe, so the product is exact where it counts.
unfoldable pub parse_memory : Value → Option ℕ
unfolding memory_text trim
parse_memory (num (natural n)) = if is_safe n && ltb 0 n then some n else none
parse_memory (str s) = memory_text (trim (codes s))
parse_memory _ = none

-- `value[key] === undefined ? preset : parse(value[key])`.
abbrev pub preset_or {ℓ} : {A : Type ℓ} → A → (Value → Option A) → Value → Option A
preset_or preset parse undefined = some preset
preset_or preset parse v = parse v

abbrev pub or_limit {ℓ} : {A : Type ℓ} → Option A → A → A
or_limit none limit = limit
or_limit (some x) limit = x

-- `x === undefined || x > limit`.
abbrev pub beyond {ℓ} : {A : Type ℓ} → (A → Bool) → Option A → Bool
beyond over none = true
beyond over (some x) = over x

-- `!Number.isInteger(pids) || pids < 1 || pids > MAX_SERVICE_PIDS`: a number that is not among
-- `natural` and `negative` is no integer or lies beyond 10^21.
unfoldable pub bad_pids : Number → Bool
bad_pids (natural n) = ltb n 1 || ltb max_service_pids n
bad_pids _ = true

unfoldable pub pids_of : Doubles → Value → Number
pids_of doubles undefined = natural max_service_pids
pids_of doubles v = doubles.number_of v

unfoldable pub limit_of_cpus : Doubles → Fields → Option Number
unfolding parse_cpu get
limit_of_cpus doubles fs = preset_or max_service_cpus (parse_cpu doubles) (get (obj fs) "cpus")

unfoldable pub limit_of_memory : Fields → Option ℕ
unfolding parse_memory get
limit_of_memory fs = preset_or max_service_memory parse_memory (get (obj fs) "memory")

unfoldable pub resource_parts : Doubles → Fields → List (List String)
unfolding unknown_keys limit_of_cpus limit_of_memory bad_pids pids_of get
resource_parts doubles fs =
    unknown_keys fs resource_value_keys
    ∷ rejects (beyond (λ x. doubles.exceeds x max_service_cpus) (limit_of_cpus doubles fs))
        "RESOURCE_LIMIT_EXCEEDED"
    ∷ rejects (beyond (ltb max_service_memory) (limit_of_memory fs)) "RESOURCE_LIMIT_EXCEEDED"
    ∷ rejects (bad_pids (pids_of doubles (get (obj fs) "pids"))) "RESOURCE_LIMIT_EXCEEDED"
    ∷ []

unfoldable pub validate_resources : Doubles → Value → List String × Limits
unfolding resource_parts limit_of_cpus limit_of_memory
validate_resources doubles (obj fs) = (
  concat (resource_parts doubles fs),
  record {
    cpus = or_limit (limit_of_cpus doubles fs) max_service_cpus;
    memory = or_limit (limit_of_memory fs) max_service_memory;
  },
)
validate_resources doubles _ = ("INVALID_RESOURCE_POLICY" ∷ [], default_limits)

-- A validation of a field that may be absent.
abbrev pub unless_undefined : (Value → List String) → Value → List String
unless_undefined validate undefined = []
unless_undefined validate v = validate v

abbrev pub limits_or_default : (Value → List String × Limits) → Value → List String × Limits
limits_or_default validate undefined = ([], default_limits)
limits_or_default validate v = validate v

unfoldable pub deployed_limits : Doubles → Fields → List String × Limits
unfolding validate_resources get
deployed_limits doubles fs = limits_or_default (validate_resources doubles) (get (obj fs) "limits")

unfoldable pub deployed_parts : Doubles → Fields → List (List String)
unfolding unknown_keys validate_resources deployed_limits get
deployed_parts doubles fs =
    unknown_keys fs resource_keys
    ∷ (deployed_limits doubles fs).0
    ∷ unless_undefined (λ v. (validate_resources doubles v).0) (get (obj fs) "reservations")
    ∷ []

-- `value["resources"]`, where it is not a record too.
unfoldable pub deployed_resources : Doubles → Value → List String × Limits
unfolding deployed_parts deployed_limits
deployed_resources doubles undefined = ([], default_limits)
deployed_resources doubles (obj fs) =
    (concat (deployed_parts doubles fs), (deployed_limits doubles fs).1)
deployed_resources doubles _ = ("INVALID_RESOURCE_POLICY" ∷ [], default_limits)

-- `value !== 1`.
unfoldable pub is_not_one : Value → Bool
is_not_one (num (natural n)) = not (eqb n 1)
is_not_one _ = true

unfoldable pub deploy_parts : Doubles → Fields → List (List String)
unfolding unknown_keys is_not_one deployed_resources get
deploy_parts doubles fs =
    let replicas = get (obj fs) "replicas" in
    unknown_keys fs deploy_keys
    ∷ rejects (not (is_undefined replicas) && is_not_one replicas) "REPLICA_LIMIT_EXCEEDED"
    ∷ (deployed_resources doubles (get (obj fs) "resources")).0
    ∷ []

unfoldable pub validate_deploy : Doubles → Value → List String × Limits
unfolding deploy_parts deployed_resources get
validate_deploy doubles (obj fs) =
    (concat (deploy_parts doubles fs), (deployed_resources doubles (get (obj fs) "resources")).1)
validate_deploy doubles _ = ("INVALID_RESOURCE_POLICY" ∷ [], default_limits)
