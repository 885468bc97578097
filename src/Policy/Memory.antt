-- ===== src/Policy/Memory.antt =====
-- The memory that an accepted candidate of packages/runtime/src/policy.ts may use. The limits are read here
-- from the candidate itself, not from what the validation has summed up.
use repo_assessment_kit.Prelude.{
  append-eq-nil, zero, suc, ◌<◌, ◌⊎◌, inl, inr, ◌≡◌, refl, false, Option, some, none, List, [], ◌∷◌,
  ◌+◌, ◌≤◌, ltb, arith, All, ℕ,
}
use repo_assessment_kit.Json.{
  Fields, Value, undefined, null, obj, arr, str, num, bool, get, entries,
}
use repo_assessment_kit.Policy.Tables.{max_service_memory, max_total_memory}
use repo_assessment_kit.Policy.Resources.{
  Doubles, Limits, preset_or, or_limit, beyond, parse_memory, limit_of_memory, limits_or_default,
  resource_parts, validate_resources, deployed_parts, deployed_resources, deploy_parts,
  validate_deploy,
}
use repo_assessment_kit.Policy.Parts.{values}
use repo_assessment_kit.Policy.Codes.{concat-eq-nil, rejects-eq-nil}
use repo_assessment_kit.Policy.Candidate.{
  accepted, service_limits, service_parts, service_codes, turn_codes, turn_totals,
  validate_services, no_limits, exceeds_total, validate_runtime_policy,
}
use repo_assessment_kit.Policy.Accepted.{validate_runtime_policy-IsAccepted}

-- The limit of a service's memory in bytes: what `deploy.resources.limits.memory` says, or the greatest.
abbrev pub memory_of : Value → Option ℕ
memory_of service =
    preset_or max_service_memory parse_memory
      (get (get (get (get service "deploy") "resources") "limits") "memory")

-- A limit that is read as 0 bytes, which the container engine takes for none; or one from a byte on.
abbrev pub MemoryIsBounded : Value → Type 0
MemoryIsBounded service =
    (memory_of service ≡ some 0)
    ⊎ ((bytes : ℕ) × (memory_of service ≡ some bytes) × (0 < bytes) × (bytes ≤ max_service_memory))

bounded :
    (service : Value) (bytes : ℕ)
    → memory_of service ≡ some bytes
    → bytes ≤ max_service_memory
    → MemoryIsBounded service
bounded service zero stated bound = inl stated
bounded service (suc bytes) stated bound = inr (suc bytes, stated, omega arith, bound)

abbrev pub total_memory : List Value → ℕ
total_memory [] = 0
total_memory (service ∷ services) =
    or_limit (memory_of service) max_service_memory + total_memory services

-- Limits that grant the memory which the value states.
abbrev Grants : Limits → Value → Type 0
Grants limits stated =
    (bytes : ℕ) × (preset_or max_service_memory parse_memory stated ≡ some bytes)
    × (limits.memory ≡ bytes)
    × (bytes ≤ max_service_memory)

within-limit :
    (memory : Option ℕ)
    → beyond (ltb max_service_memory) memory ≡ false
    → (bytes : ℕ) × (memory ≡ some bytes)
      × (or_limit memory max_service_memory ≡ bytes)
      × (bytes ≤ max_service_memory)
within-limit none h = cc
within-limit (some bytes) h = (bytes, refl, refl, ground arith)

resources-grant :
    (doubles : Doubles) (v : Value)
    → (limits_or_default (validate_resources doubles) v).0 ≡ []
    → Grants (limits_or_default (validate_resources doubles) v).1 (get v "memory")
unfolding validate_resources limit_of_memory get
resources-grant doubles undefined h = (max_service_memory, refl, refl, omega arith)
resources-grant doubles (obj fs) h =
    within-limit (limit_of_memory fs)
      (rejects-eq-nil _ _ (concat-eq-nil (resource_parts doubles fs) h).1.1.0)
resources-grant doubles null h = cc
resources-grant doubles (arr vs) h = cc
resources-grant doubles (str s) h = cc
resources-grant doubles (num n) h = cc
resources-grant doubles (bool b) h = cc

deployed-grant :
    (doubles : Doubles) (v : Value)
    → (deployed_resources doubles v).0 ≡ []
    → Grants (deployed_resources doubles v).1 (get (get v "limits") "memory")
unfolding deployed_resources get
deployed-grant doubles undefined h = (max_service_memory, refl, refl, omega arith)
deployed-grant doubles (obj fs) h =
    resources-grant doubles (get (obj fs) "limits")
      (concat-eq-nil (deployed_parts doubles fs) h).1.0
deployed-grant doubles null h = cc
deployed-grant doubles (arr vs) h = cc
deployed-grant doubles (str s) h = cc
deployed-grant doubles (num n) h = cc
deployed-grant doubles (bool b) h = cc

deploy-grant :
    (doubles : Doubles) (v : Value)
    → (limits_or_default (validate_deploy doubles) v).0 ≡ []
    → Grants
        (limits_or_default (validate_deploy doubles) v).1
        (get (get (get v "resources") "limits") "memory")
unfolding validate_deploy get
deploy-grant doubles undefined h = (max_service_memory, refl, refl, omega arith)
deploy-grant doubles (obj fs) h =
    deployed-grant doubles (get (obj fs) "resources")
      (concat-eq-nil (deploy_parts doubles fs) h).1.1.0
deploy-grant doubles null h = cc
deploy-grant doubles (arr vs) h = cc
deploy-grant doubles (str s) h = cc
deploy-grant doubles (num n) h = cc
deploy-grant doubles (bool b) h = cc

service-grant :
    (doubles : Doubles) (service : Fields)
    → service_codes doubles service ≡ []
    → Grants
        (service_limits doubles service).1
        (get (get (get (get (obj service) "deploy") "resources") "limits") "memory")
unfolding service_codes service_limits
service-grant doubles service h =
    deploy-grant doubles (get (obj service) "deploy")
      (concat-eq-nil (service_parts doubles service) h).1.1.1.1.1.1.1.1.1.0

-- A turn of the loop adds what the service may use.
turn-memory :
    (doubles : Doubles) (v : Value) (total : Limits)
    → turn_codes doubles v ≡ []
    → MemoryIsBounded v
      × ((turn_totals doubles v total).memory
          ≡ total.memory + or_limit (memory_of v) max_service_memory)
unfolding turn_codes turn_totals
turn-memory doubles (obj service) total h =
    let (bytes, stated, granted, bound) = service-grant doubles service h in
    (bounded (obj service) bytes stated bound, rw (stated, granted) refl)
turn-memory doubles undefined total h = cc
turn-memory doubles null total h = cc
turn-memory doubles (arr vs) total h = cc
turn-memory doubles (str s) total h = cc
turn-memory doubles (num n) total h = cc
turn-memory doubles (bool b) total h = cc

services-memory :
    (doubles : Doubles) (services : List Value) (total : Limits)
    → (validate_services doubles services total).0 ≡ []
    → All MemoryIsBounded services
      × ((validate_services doubles services total).1.memory ≡ total.memory + total_memory services)
unfolding validate_services
services-memory doubles [] total h = (tt, omega arith)
services-memory doubles (v ∷ services) total h =
    let (here, later) = append-eq-nil (turn_codes doubles v) _ h in
    let (bounded, added) = turn-memory doubles v total here in
    let (others, summed) = services-memory doubles services (turn_totals doubles v total) later in
    ((bounded, others), omega (arith, added, summed))

-- Where a candidate is accepted, each service states a memory limit that is read as 0 bytes, which the
-- container engine takes for none, or it may use from one byte up to 2 GiB, by a limit that it states or by
-- default; and the services of the latter kind together may use at most 6 GiB.
pub validate_runtime_policy-memory :
    (doubles : Doubles) (candidate : Value) {normalized : Value}
    → validate_runtime_policy doubles candidate ≡ accepted normalized
    → (services : Fields) × (get candidate "services" ≡ obj services)
      × All MemoryIsBounded (values (entries services))
      × (total_memory (values (entries services)) ≤ max_total_memory)
unfolding exceeds_total
validate_runtime_policy-memory doubles candidate h =
    let (object, services, same, returned, facts) =
      validate_runtime_policy-IsAccepted doubles candidate h in
    let (bounded, summed) =
      services-memory doubles (values (entries services)) no_limits facts.turns in
    (services, rw same facts.present, bounded, ground (arith, summed, facts.within))
