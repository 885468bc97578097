-- ===== src/Plans/Coherent.antt =====
-- The two maps of `InMemoryControlPlanAdmissionJournal` (packages/runtime/src/control-plan.ts) agree, a plan that
-- it holds stays in it, and no second plan is admitted with its identifier or its nonce.
use repo_assessment_kit.Prelude.{
  ◌≡◌, refl, ap, String, Option, none, some, arith, ◌==◌, eq_iff, eq_refl, Bool-cases, inl, inr,
}
use repo_assessment_kit.Prelude.Dict.{lookup, insert, lookup-insert}
use repo_assessment_kit.Plans.{
  ControlPlanAdmission, PlanJournal, empty_journal, stored, append_new, append_plan, revoked_plan,
  revoke_found, revoke, PlanHistory, start, appends, revokes,
}

-- Each plan stands under its identifier, and its nonce leads to it.
pub record IsCoherent (j : PlanJournal) : Type 0 where
  pub named :
      (id : String) (r : ControlPlanAdmission)
      → lookup id j.records ≡ some r
      → (r.control_plan_id ≡ id) × (lookup r.nonce j.nonces ≡ some id)
  pub known :
      (nonce id : String)
      → lookup nonce j.nonces ≡ some id
      → (r : ControlPlanAdmission) × (lookup id j.records ≡ some r) × (r.nonce ≡ nonce)

pub append_stored :
    (found : Option ControlPlanAdmission) (used : Option String) (r : ControlPlanAdmission)
    (j : PlanJournal) {end : PlanJournal}
    → append_new found used r j ≡ stored end
    → (found ≡ none)
      × (used ≡ none)
      × (end.records ≡ insert r.control_plan_id r j.records)
      × (end.nonces ≡ insert r.nonce r.control_plan_id j.nonces)
unfolding append_new
append_stored none none r j {end} h =
    let e : end ≡ record {
      records = insert r.control_plan_id r j.records;
      nonces = insert r.nonce r.control_plan_id j.nonces;
    } =
      cc in
    (refl, refl, ap (λ (k : PlanJournal). k.records) e, ap (λ (k : PlanJournal). k.nonces) e)
append_stored none (some id) r j h = cc
append_stored (some x) used r j h = cc

append-IsCoherent :
    (r : ControlPlanAdmission) (j end : PlanJournal)
    → IsCoherent j
    → append_plan r j ≡ stored end
    → IsCoherent end
unfolding append_plan
append-IsCoherent r j end coherent h =
    let (fresh, unused, records, nonces) =
      append_stored (lookup r.control_plan_id j.records) (lookup r.nonce j.nonces) r j h in
    record {
      named = λ id s found. ground (
        arith,
        records,
        nonces,
        coherent.named id s,
        lookup-insert r.control_plan_id id r j.records,
        lookup-insert r.nonce s.nonce r.control_plan_id j.nonces,
        eq_iff r.control_plan_id id,
        eq_iff r.nonce s.nonce,
        fresh,
        unused,
      );
      known = λ nonce id found. elim (Bool-cases (r.nonce == nonce)) [
        | inl same ↦
            let e : r.control_plan_id ≡ id =
              ground (arith, nonces, lookup-insert r.nonce nonce r.control_plan_id j.nonces) in
            (r, rw (records, lookup-insert, e, eq_refl id) refl, (eq_iff r.nonce nonce).0 same)
        | inr differs ↦
            let (s, there, e) =
              coherent.known nonce id
                (ground (arith, nonces, lookup-insert r.nonce nonce r.control_plan_id j.nonces)) in
            (
              s,
              ground (
                arith,
                records,
                fresh,
                there,
                lookup-insert r.control_plan_id id r j.records,
                eq_iff r.control_plan_id id,
              ),
              e,
            )
      ];
    }

revoke_found-IsCoherent :
    (found : Option ControlPlanAdmission) (id time reason : String) (j : PlanJournal)
    → lookup id j.records ≡ found
    → IsCoherent j
    → IsCoherent (revoke_found found id time reason j)
unfolding revoke_found
revoke_found-IsCoherent none id time reason j e coherent = coherent
revoke_found-IsCoherent (some r) id time reason j e coherent =
    let later = revoked_plan time reason r in
    record {
      named = λ other s found. ground (
        arith,
        coherent.named id r,
        coherent.named other s,
        lookup-insert id other later j.records,
        eq_iff id other,
      );
      known = λ nonce other found. elim (Bool-cases (id == other)) [
        | inl same ↦ (
          later,
          rw (lookup-insert, same) refl,
          let (s, there, same_nonce) = coherent.known nonce other found in
              ground (arith, there, same_nonce, eq_iff id other),
        )
        | inr differs ↦
            let (s, there, same_nonce) = coherent.known nonce other found in
            (s, rw (lookup-insert, differs) there, same_nonce)
      ];
    }

revoke-IsCoherent :
    (id time reason : String) (j : PlanJournal)
    → IsCoherent j
    → IsCoherent (revoke id time reason j)
unfolding revoke
revoke-IsCoherent id time reason j coherent =
    revoke_found-IsCoherent (lookup id j.records) id time reason j refl coherent

-- Whatever has happened to a journal whose maps agree, they agree: each plan stands under its own
-- identifier and its nonce leads to it, and each nonce leads to a plan that has it. So they do in every
-- journal that was empty at first.
pub PlanHistory-IsCoherent :
    {j end : PlanJournal} → PlanHistory j end → IsCoherent j → IsCoherent end
PlanHistory-IsCoherent start coherent = coherent
PlanHistory-IsCoherent (appends r history appended) coherent =
    append-IsCoherent r _ _ (PlanHistory-IsCoherent history coherent) appended
PlanHistory-IsCoherent (revokes id time reason history after) coherent =
    rw after (revoke-IsCoherent id time reason _ (PlanHistory-IsCoherent history coherent))

pub empty-IsCoherent : IsCoherent empty_journal
unfolding lookup
empty-IsCoherent = record { named = λ id r found. cc; known = λ nonce id found. cc }
