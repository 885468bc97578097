-- ===== src/Runtime/Gate.antt =====
-- When `evaluateRuntimeCapability` of packages/runtime/src/capability.ts calls a runtime capable, and what
-- the planned controls are told by `resolveRuntimeCoverage` where it does not.
use mathlib.Core.Path.{subst}
use repo_assessment_kit.Prelude.{
  append-eq-nil, ◌≡◌, ◌≢◌, ◌↔◌, refl, ap, sym, ◌∙◌, String, Bool, true, false, not, ◌&&◌, Option,
  none, some, List, [], ◌∷◌, ◌++◌, map, includes, eqb, arith, ◌==◌, every, eq_iff, eq_refl, All,
  Bool-cases, inl, inr,
}
use repo_assessment_kit.Runtime.{
  Attestations, RuntimeCapabilityInput, RuntimeCapability, BlockingReason, capable, blocked,
  required_controllers, unless, controller_reasons, attestation_reasons, blocking_reasons,
  gated_capability, not_applicable_capability, evaluate_runtime_capability, ControlResult,
  resolve_runtime_coverage, if_planned,
}

-- What a runtime has to attest.
abbrev pub Attested : Option Attestations → Type 0
Attested none = ⊥
Attested (some a) =
    (a.rootless ≡ true)
    × (a.cgroup_version ≡ 2)
    × (every (includes a.delegated_controllers) required_controllers ≡ true)

-- What has to hold for the runtime to be used.
pub record IsRunnable (input : RuntimeCapabilityInput) : Type 0 where
  pub attested : Attested input.attestations
  pub snapshot : input.verified_snapshot ≡ true
  pub policy : input.policy_compilable ≡ true
  pub browser : input.browser_required ≡ true → input.browser.chromium ≡ "available"

unless-eq-nil : (b : Bool) (r : BlockingReason) → (unless b r ≡ []) ↔ (b ≡ true)
unless-eq-nil true r = (λ h. refl, λ h. refl)
unless-eq-nil false r = (λ h. cc, λ h. cc)

controller_reasons-eq-nil :
    (affected delegated controllers : List String)
    → (controller_reasons affected delegated controllers ≡ [])
      ↔ (every (includes delegated) controllers ≡ true)
unfolding controller_reasons
controller_reasons-eq-nil affected delegated [] = (λ h. refl, λ h. refl)
controller_reasons-eq-nil affected delegated (c ∷ cs) = elim (Bool-cases (includes delegated c)) [
  | inl e ↦ rw e (controller_reasons-eq-nil affected delegated cs)
  | inr e ↦ rw e (λ h. cc, λ h. cc)
]

-- Two groups of reasons are both empty.
module _ {ℓ κ} {P : Type ℓ} {Q : Type κ} where
  both-eq-nil :
      (xs ys : List BlockingReason) → (xs ≡ []) ↔ P → (ys ≡ []) ↔ Q → (xs ++ ys ≡ []) ↔ (P × Q)
  both-eq-nil xs ys p q = (
    λ h. let (hx, hy) = append-eq-nil xs ys h in (p.0 hx, q.0 hy),
    λ (hp, hq). rw (p.1 hp, q.1 hq) refl,
  )

attestation_reasons-eq-nil :
    (affected : List String) (o : Option Attestations)
    → (attestation_reasons affected o ≡ []) ↔ Attested o
unfolding attestation_reasons
attestation_reasons-eq-nil affected none = (λ h. cc, λ h. absurd h)
attestation_reasons-eq-nil affected (some a) =
    let numbers : (eqb a.cgroup_version 2 ≡ true) ↔ (a.cgroup_version ≡ 2) =
      (λ h. ground arith, λ h. ground arith) in
    let version = unless-eq-nil (eqb a.cgroup_version 2) _ in
    let all = both-eq-nil _ _ (unless-eq-nil a.rootless _) (
      both-eq-nil _ _ (λ h. numbers.0 (version.0 h), λ h. version.1 (numbers.1 h))
        (controller_reasons-eq-nil affected a.delegated_controllers required_controllers)) in
    (λ h. let (r, (v, c)) = all.0 h in (r, v, c), λ (r, v, c). all.1 (r, (v, c)))

browser_ok : Bool → String → Bool
browser_ok required chromium = not (required && not (chromium == "available"))

browser_ok_iff :
    (required : Bool) (chromium : String)
    → (browser_ok required chromium ≡ true) ↔ (required ≡ true → chromium ≡ "available")
unfolding browser_ok
browser_ok_iff false chromium = (λ h e. cc, λ h. refl)
browser_ok_iff true chromium = (
  λ h e. ground (arith, eq_iff chromium "available"),
  λ h. let same = h refl in ground (arith, eq_iff chromium "available"),
)

blocking_reasons-eq-nil :
    (input : RuntimeCapabilityInput) → (blocking_reasons input ≡ []) ↔ IsRunnable input
unfolding blocking_reasons browser_ok
blocking_reasons-eq-nil input =
    let browser = unless-eq-nil (browser_ok input.browser_required input.browser.chromium) _ in
    let rule = browser_ok_iff input.browser_required input.browser.chromium in
    let all =
      both-eq-nil _ _ (attestation_reasons-eq-nil input.planned_controls input.attestations) (
        both-eq-nil _ _ (unless-eq-nil input.verified_snapshot _) (
          both-eq-nil _ _ (unless-eq-nil input.policy_compilable _)
            (λ h. rule.0 (browser.0 h), λ h. browser.1 (rule.1 h)))) in
    (
      λ h.
          let (a, (s, (p, b))) = all.0 h in
          record { attested = a; snapshot = s; policy = p; browser = b },
      λ r. all.1 (r.attested, (r.snapshot, (r.policy, r.browser))),
    )

if_planned-gated :
    (controls : List String) (without gated : RuntimeCapability)
    → controls ≢ []
    → if_planned controls without gated ≡ gated
unfolding if_planned
if_planned-gated [] without gated h = absurd (h refl)
if_planned-gated (c ∷ cs) without gated h = refl

evaluate-gated :
    (input : RuntimeCapabilityInput)
    → input.planned_controls ≢ []
    → evaluate_runtime_capability input ≡ gated_capability input (blocking_reasons input)
unfolding evaluate_runtime_capability
evaluate-gated input h =
    if_planned-gated input.planned_controls (not_applicable_capability input)
      (gated_capability input (blocking_reasons input)) h

gated-capable :
    (input : RuntimeCapabilityInput) (rs : List BlockingReason)
    → ((gated_capability input rs).state ≡ capable) ↔ (rs ≡ [])
unfolding gated_capability
gated-capable input [] = (λ h. refl, λ h. refl)
gated-capable input (r ∷ rs) = (λ h. cc, λ h. cc)

-- Where controls are planned, the runtime is capable exactly if a rootless engine with cgroup v2 and
-- all required controllers is attested, the snapshot is verified, the policy can be compiled, and the
-- browser is available where it is required.
pub evaluate-capable_iff :
    (input : RuntimeCapabilityInput)
    → input.planned_controls ≢ []
    → ((evaluate_runtime_capability input).state ≡ capable) ↔ IsRunnable input
evaluate-capable_iff input h =
    let gate = gated-capable input (blocking_reasons input) in
    let reasons = blocking_reasons-eq-nil input in
    let same = evaluate-gated input h in
    (
      λ e. reasons.0 (gate.0 (ap (λ c. c.state) (sym same) ∙ e)),
      λ r. ap (λ c. c.state) same ∙ gate.1 (reasons.1 r),
    )

-- What a control is told where the runtime is blocked, for one of the given reasons.
abbrev pub IsTold : List BlockingReason → ControlResult → Type 0
IsTold reasons c =
    (c.status ≡ blocked) × (includes (map (λ r. r.code) reasons) c.reason_code ≡ true)

gated-IsTold :
    (input : RuntimeCapabilityInput) (r : BlockingReason) (rs : List BlockingReason)
    (ids : List String)
    → let results =
        (resolve_runtime_coverage (gated_capability input (r ∷ rs)) ids).control_results in
      (map (λ c. c.planned_control_id) results ≡ ids) × All (IsTold (r ∷ rs)) results
unfolding resolve_runtime_coverage gated_capability
gated-IsTold input r rs [] = (refl, tt)
gated-IsTold input r rs (id ∷ ids) =
    let (same, told) = gated-IsTold input r rs ids in
    (ap (λ t. id ∷ t) same, ((refl, rw (eq_refl r.code) refl), told))

IsTold-reasons :
    (input : RuntimeCapabilityInput) (rs : List BlockingReason) (ids : List String)
    → rs ≢ []
    → let results = (resolve_runtime_coverage (gated_capability input rs) ids).control_results in
      (map (λ c. c.planned_control_id) results ≡ ids) × All (IsTold rs) results
IsTold-reasons input [] ids h = absurd (h refl)
IsTold-reasons input (r ∷ rs) ids h = gated-IsTold input r rs ids

-- Where controls are planned and the runtime may not be used, each control that is asked about is told
-- once, in the order of the question, that it is blocked, with the code of one of the reasons.
pub resolve-IsTold :
    (input : RuntimeCapabilityInput) (ids : List String)
    → input.planned_controls ≢ []
    → (IsRunnable input → ⊥)
    → let results =
        (resolve_runtime_coverage (evaluate_runtime_capability input) ids).control_results in
      (map (λ c. c.planned_control_id) results ≡ ids)
      × All (IsTold (blocking_reasons input)) results
resolve-IsTold input ids planned not_runnable =
    subst
      (λ c.
        (map (λ r. r.planned_control_id) (resolve_runtime_coverage c ids).control_results ≡ ids)
        × All (IsTold (blocking_reasons input)) (resolve_runtime_coverage c ids).control_results)
      (sym (evaluate-gated input planned))
      (IsTold-reasons input (blocking_reasons input) ids
        (λ e. not_runnable ((blocking_reasons-eq-nil input).0 e)))
