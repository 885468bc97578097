-- ===== src/Plans/Once.antt =====
-- A plan that `InMemoryControlPlanAdmissionJournal` (packages/runtime/src/control-plan.ts) holds stays in it, and
-- `admitSignedDynamicControlPlan` admits no second plan with its identifier or its nonce.
use repo_assessment_kit.Prelude.{
  ◌≡◌, refl, ap, ◌∙◌, String, Option, none, some, arith, ◌==◌, eq_iff, Bool-cases, inl, inr, ◌⊎◌,
}
use repo_assessment_kit.Prelude.Dict.{lookup, lookup-insert}
use repo_assessment_kit.Plans.{
  admitted, revoked, ControlPlanAdmission, PlanJournal, find_by_plan_id, refused, stored,
  append_new, append_plan, revoked_plan, revoke_found, revoke, admit_unknown, admit_plan,
  PlanHistory, start, appends, revokes,
}
use repo_assessment_kit.Plans.Coherent.{IsCoherent, append_stored, PlanHistory-IsCoherent}

-- What a plan was admitted with: all but its revocation.
abbrev pub terms : ControlPlanAdmission → ControlPlanAdmission
terms r = record r { state = admitted; revoked_at = none; revocation_reason = none }

-- The journal holds the plan, which may have been revoked since and is not admitted again.
abbrev pub Holds : ControlPlanAdmission → PlanJournal → Type 0
Holds r j =
    (later : ControlPlanAdmission) × (find_by_plan_id r.control_plan_id j ≡ some later)
    × (terms later ≡ terms r)
    × (r.state ≡ revoked → later.state ≡ revoked)

append-Holds :
    (r next : ControlPlanAdmission) (j end : PlanJournal)
    → Holds r j
    → append_plan next j ≡ stored end
    → Holds r end
unfolding append_plan find_by_plan_id
append-Holds r next j end (later, there, same, stays) h =
    let (fresh, unused, records, nonces) =
      append_stored (lookup next.control_plan_id j.records) (lookup next.nonce j.nonces) next j h in
    (
      later,
      ground (
        arith,
        records,
        fresh,
        there,
        lookup-insert next.control_plan_id r.control_plan_id next j.records,
        eq_iff next.control_plan_id r.control_plan_id,
      ),
      same,
      stays,
    )

revoke_found-Holds :
    (found : Option ControlPlanAdmission) (id time reason : String) (r : ControlPlanAdmission)
    (j : PlanJournal)
    → lookup id j.records ≡ found
    → Holds r j
    → Holds r (revoke_found found id time reason j)
unfolding revoke_found find_by_plan_id
revoke_found-Holds none id time reason r j e holds = holds
revoke_found-Holds (some s) id time reason r j e (later, there, same, stays) =
    elim (Bool-cases (id == r.control_plan_id)) [
      | inl here ↦
          let at_id : s ≡ later = ground (arith, e, there, eq_iff id r.control_plan_id) in
          (
            revoked_plan time reason s,
            rw (lookup-insert, here) refl,
            ap terms at_id ∙ same,
            λ was. refl,
          )
      | inr elsewhere ↦ (later, rw (lookup-insert, elsewhere) there, same, stays)
    ]

PlanHistory-Holds :
    {j end : PlanJournal} (r : ControlPlanAdmission) → PlanHistory j end → Holds r j → Holds r end
unfolding revoke
PlanHistory-Holds r start holds = holds
PlanHistory-Holds r (appends next history appended) holds =
    append-Holds r next _ _ (PlanHistory-Holds r history holds) appended
PlanHistory-Holds r (revokes id time reason history after) holds =
    rw after (revoke_found-Holds _ id time reason r _ refl (PlanHistory-Holds r history holds))

append_refused :
    (found : Option ControlPlanAdmission) (used : Option String) (next : ControlPlanAdmission)
    (j : PlanJournal)
    → ((s : ControlPlanAdmission) × (found ≡ some s)) ⊎ ((id : String) × (used ≡ some id))
    → append_new found used next j ≡ refused "CONTROL_PLAN_REPLAY"
unfolding append_new
append_refused (some s) used next j taken = refl
append_refused none (some id) next j taken = refl
append_refused none none next j (inl (s, e)) = cc
append_refused none none next j (inr (id, e)) = cc

look_refused :
    (replay existing : Option ControlPlanAdmission) (next : ControlPlanAdmission) (j : PlanJournal)
    → append_plan next j ≡ refused "CONTROL_PLAN_REPLAY"
    → (code : String) × (admit_unknown replay existing next j ≡ refused code)
unfolding admit_unknown
look_refused (some s) existing next j h = ("CONTROL_PLAN_REPLAY", refl)
look_refused none (some s) next j h = ("CONTROL_PLAN_ID_REPLAY", refl)
look_refused none none next j h = ("CONTROL_PLAN_REPLAY", h)

taken_by :
    (r next : ControlPlanAdmission) (j : PlanJournal)
    → IsCoherent j
    → Holds r j
    → (next.nonce ≡ r.nonce) ⊎ (next.control_plan_id ≡ r.control_plan_id)
    → ((s : ControlPlanAdmission) × (lookup next.control_plan_id j.records ≡ some s))
      ⊎ ((id : String) × (lookup next.nonce j.nonces ≡ some id))
unfolding find_by_plan_id
taken_by r next j coherent (later, there, same, stays) (inr same_id) = inl (later, rw same_id there)
taken_by r next j coherent (later, there, same, stays) (inl same_nonce) =
    let nonces = (coherent.named r.control_plan_id later there).1 in
    let kept : later.nonce ≡ r.nonce = ap (λ (s : ControlPlanAdmission). s.nonce) same in
    inr (r.control_plan_id, rw (same_nonce, ← kept) nonces)

-- A plan that a journal with agreeing maps holds is still held after any history, with what it was
-- admitted with, and revoked if it was; and every other plan with its nonce or its identifier is
-- refused, in whatever states the two looks of the admission have found the journal.
pub admitted_once :
    {j at_append : PlanJournal} (r next : ControlPlanAdmission) (at_nonce at_plan : PlanJournal)
    → IsCoherent j
    → find_by_plan_id r.control_plan_id j ≡ some r
    → (next.nonce ≡ r.nonce) ⊎ (next.control_plan_id ≡ r.control_plan_id)
    → PlanHistory j at_append
    → Holds r at_append
      × (code : String) × (admit_plan next at_nonce at_plan at_append ≡ refused code)
unfolding admit_plan append_plan
admitted_once {at_append = at_append} r next at_nonce at_plan coherent there clash history =
    let holds = PlanHistory-Holds r history (r, there, refl, λ was. was) in
    let taken = taken_by r next at_append (PlanHistory-IsCoherent history coherent) holds clash in
    let (code, refusal) =
      look_refused _ _ next at_append (append_refused _ _ next at_append taken) in
    (holds, code, refusal)
