-- ===== src/Journal/Complete.antt =====
-- What `complete` and `reconcileAccepted` of scripts/host-helper-journal.mjs have checked and
-- written when they succeed.
use repo_assessment_kit.Prelude.{
  ◌≡◌, ◌∙◌, String, true, some, arith, ◌==◌, eq_iff, Bool-cases, Option-cases, inl, inr,
}
use repo_assessment_kit.Prelude.Dict.{lookup, insert}
use repo_assessment_kit.Prelude.Result.{ok, Result-cases}
use repo_assessment_kit.Json.{Value, read}
use repo_assessment_kit.Journal.{
  Request, Entry, Journal, settle, settled, resource_of, cleanup_of, set_resource, drop_resource,
  complete, is_pending, reconcile_accepted,
}

-- What `complete` leaves, apart from resources and cleanup.
pub record Completed (r : Request) (response : Value) (j j' : Journal) : Type 0 where
  pub admission : Entry
  pub stored : lookup r.idempotency_key j.idempotency ≡ some admission
  pub same_digest : admission.request_digest ≡ r.request_digest
  pub counters : j'.counters ≡ j.counters
  pub nonces : j'.nonces ≡ j.nonces
  pub fences : j'.fences ≡ j.fences
  pub idempotency :
      j'.idempotency ≡ insert r.idempotency_key (settled admission response) j.idempotency

-- The part of the journal that resources do not touch.
record SameBook (j j' : Journal) : Type 0 where
  counters : j'.counters ≡ j.counters
  nonces : j'.nonces ≡ j.nonces
  fences : j'.fences ≡ j.fences
  idempotency : j'.idempotency ≡ j.idempotency

set_resource-SameBook :
    (r : Request) (response id : Value) (j : Journal) → SameBook j (set_resource r response id j)
unfolding set_resource
set_resource-SameBook r response id j = ground arith

drop_resource-SameBook :
    (response id : Value) (j : Journal) → SameBook j (drop_resource response id j)
unfolding drop_resource
drop_resource-SameBook response id j = ground arith

pub complete-Completed :
    (r : Request) (response : Value) (j j' : Journal)
    → complete r response j ≡ ok j'
    → Completed r response j j'
unfolding complete
complete-Completed r response j j' h =
    elim (Option-cases (lookup r.idempotency_key j.idempotency)) [
      | inl absent ↦ absurd (ground arith)
      | inr (admission, e) ↦ elim (Bool-cases (admission.request_digest == r.request_digest)) [
        | inr other ↦ absurd (ground arith)
        | inl same ↦ elim (Result-cases (read response "state")) [
          | inr (x, failed) ↦ absurd (ground arith)
          | inl (state, e₀) ↦ elim (Result-cases (resource_of r response)) [
            | inr (x, failed) ↦ absurd (ground arith)
            | inl (resource, e₁) ↦ elim (Result-cases (cleanup_of r)) [
              | inr (x, failed) ↦ absurd (ground arith)
              | inl (removed, e₂) ↦
                  let k = settle r.idempotency_key admission response j in
                  let l = set_resource r response resource k in
                  let after : j' ≡ drop_resource response removed l = ground arith in
                  let b₁ = set_resource-SameBook r response resource k in
                  let b₂ = drop_resource-SameBook response removed l in
                  record {
                    admission = admission;
                    stored = e;
                    same_digest = (eq_iff _ _).0 same;
                    counters = rw after (b₂.counters ∙ b₁.counters);
                    nonces = rw after (b₂.nonces ∙ b₁.nonces);
                    fences = rw after (b₂.fences ∙ b₁.fences);
                    idempotency = rw after (b₂.idempotency ∙ b₁.idempotency);
                  }
            ]
          ]
        ]
      ]
    ]

-- What `reconcileAccepted` has checked and written.
pub record Reconciled (key request_digest : String) (response : Value) (j j' : Journal)
    : Type 0 where
  pub entry : Entry
  pub stored : lookup key j.idempotency ≡ some entry
  pub pending : is_pending entry ≡ true
  pub same_digest : entry.request_digest ≡ request_digest
  pub after : j' ≡ settle key entry response j

pub reconcile_accepted-Reconciled :
    (key request_digest : String) (response : Value) (j j' : Journal)
    → reconcile_accepted key request_digest response j ≡ ok j'
    → Reconciled key request_digest response j j'
unfolding reconcile_accepted
reconcile_accepted-Reconciled key request_digest response j j' h =
    elim (Option-cases (lookup key j.idempotency)) [
      | inl absent ↦ absurd (ground arith)
      | inr (entry, e) ↦ elim (Result-cases (read response "state")) [
        | inr (x, failed) ↦ absurd (ground arith)
        | inl (state, e₀) ↦ record {
          entry = entry;
          stored = e;
          pending = ground arith;
          same_digest = ground (arith, eq_iff entry.request_digest request_digest);
          after = ground arith;
        }
      ]
    ]
