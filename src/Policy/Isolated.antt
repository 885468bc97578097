-- ===== src/Policy/Isolated.antt =====
-- The theorem on the candidates that `validateRuntimePolicy` of packages/runtime/src/policy.ts accepts.
use repo_assessment_kit.Prelude.{
  append-eq-nil, ◌≡◌, ◌≢◌, refl, ap, true, false, not, ◌&&◌, List, [], ◌∷◌, arith, eq_iff, All, ◌⊎◌,
  inl, inr,
}
use repo_assessment_kit.Json.{
  Fields, no_fields, Value, undefined, null, obj, arr, str, num, bool, get, entries, is_undefined,
  is_text,
}
use repo_assessment_kit.Policy.Resources.{Doubles, unless_undefined}
use repo_assessment_kit.Policy.Parts.{
  values, is_true, network_codes, network_parts, networks_codes, validate_networks,
}
use repo_assessment_kit.Policy.Codes.{concat-eq-nil, rejects-eq-nil}
use repo_assessment_kit.Policy.Candidate.{accepted, no_limits, validate_runtime_policy}
use repo_assessment_kit.Policy.Contained.{ServiceIsContained}
use repo_assessment_kit.Policy.Accepted.{validate_runtime_policy-IsAccepted, services-All}

-- A network is not external, and its driver and its `internal` are absent or "bridge" and true.
abbrev pub NetworkIsIsolated : Value → Type 0
NetworkIsIsolated (obj network) =
    (get (obj network) "external" ≢ bool true)
    × ((get (obj network) "driver" ≡ undefined) ⊎ (get (obj network) "driver" ≡ str "bridge"))
    × ((get (obj network) "internal" ≡ undefined) ⊎ (get (obj network) "internal" ≡ bool true))
NetworkIsIsolated _ = ⊥

bridge_or_undefined :
    (driver : Value)
    → (not (is_undefined driver) && not (is_text driver "bridge")) ≡ false
    → (driver ≡ undefined) ⊎ (driver ≡ str "bridge")
bridge_or_undefined undefined h = inl refl
bridge_or_undefined (str s) h = inr (ground (arith, eq_iff s "bridge"))
bridge_or_undefined null h = cc
bridge_or_undefined (obj fs) h = cc
bridge_or_undefined (arr vs) h = cc
bridge_or_undefined (num n) h = cc
bridge_or_undefined (bool b) h = cc

true_or_undefined :
    (internal : Value)
    → (not (is_undefined internal) && not (is_true internal)) ≡ false
    → (internal ≡ undefined) ⊎ (internal ≡ bool true)
true_or_undefined undefined h = inl refl
true_or_undefined (bool true) h = inr refl
true_or_undefined (bool false) h = cc
true_or_undefined null h = cc
true_or_undefined (obj fs) h = cc
true_or_undefined (arr vs) h = cc
true_or_undefined (str s) h = cc
true_or_undefined (num n) h = cc

network_codes-NetworkIsIsolated :
    (network : Value) → network_codes network ≡ [] → NetworkIsIsolated network
unfolding network_codes
network_codes-NetworkIsIsolated (obj network) h =
    let parts = concat-eq-nil (network_parts network) h in
    (
      λ e. ground (arith, rejects-eq-nil _ _ parts.1.0, ap is_true e),
      bridge_or_undefined _ (rejects-eq-nil _ _ parts.1.1.0),
      true_or_undefined _ (rejects-eq-nil _ _ parts.1.1.1.0),
    )
network_codes-NetworkIsIsolated undefined h = cc
network_codes-NetworkIsIsolated null h = cc
network_codes-NetworkIsIsolated (arr vs) h = cc
network_codes-NetworkIsIsolated (str s) h = cc
network_codes-NetworkIsIsolated (num n) h = cc
network_codes-NetworkIsIsolated (bool b) h = cc

networks-All :
    (networks : List Value) → networks_codes networks ≡ [] → All NetworkIsIsolated networks
unfolding networks_codes
networks-All [] h = tt
networks-All (network ∷ networks) h =
    let (here, later) = append-eq-nil (network_codes network) _ h in
    (network_codes-NetworkIsIsolated network here, networks-All networks later)

-- The networks of a candidate, where it has any.
abbrev pub NetworksAreIsolated : Value → Type 0
NetworksAreIsolated undefined = Unit
NetworksAreIsolated (obj networks) = All NetworkIsIsolated (values (entries networks))
NetworksAreIsolated _ = ⊥

networks_isolated : (v : Value) → unless_undefined validate_networks v ≡ [] → NetworksAreIsolated v
unfolding validate_networks
networks_isolated undefined h = tt
networks_isolated (obj networks) h = networks-All (values (entries networks)) h
networks_isolated null h = cc
networks_isolated (arr vs) h = cc
networks_isolated (str s) h = cc
networks_isolated (num n) h = cc
networks_isolated (bool b) h = cc

-- An accepted candidate is returned as it is. It has one service at least, and each service is an
-- object with none but the allowed fields, an image or a build, an image that is `scratch` or carries a
-- digest where it states one, and a user written in digits and not as "0" where it states one. Where the
-- candidate has networks, none of them is external, and none names a driver other than "bridge" or a
-- value of `internal` other than true.
pub validate_runtime_policy-IsContained :
    (doubles : Doubles) (candidate : Value) {normalized : Value}
    → validate_runtime_policy doubles candidate ≡ accepted normalized
    → (normalized ≡ candidate)
      × (services : Fields) × (get candidate "services" ≡ obj services)
      × (services ≢ no_fields)
      × All ServiceIsContained (values (entries services))
      × NetworksAreIsolated (get candidate "networks")
validate_runtime_policy-IsContained doubles candidate h =
    let (object, services, same, returned, facts) =
      validate_runtime_policy-IsAccepted doubles candidate h in
    (
      returned,
      services,
      rw same facts.present,
      facts.nonempty,
      services-All doubles (values (entries services)) no_limits facts.turns,
      rw same (networks_isolated (get (obj object) "networks") facts.networks),
    )
