-- ===== src/Service/Reconcile/Written.antt =====
-- What a durable write of scripts/host-helper-journal.mjs leaves, for `reconcile` and `emergencyStop`.
use repo_assessment_kit.Prelude.{◌≡◌, inl, inr, arith}
use repo_assessment_kit.Prelude.Result.{Result, ok, Result-cases}
use repo_assessment_kit.Json.{Value}
use repo_assessment_kit.Journal.{Journal}
use repo_assessment_kit.Protocol.Canonical.{canonical_json}
use repo_assessment_kit.Service.Reconcile.{written}

pub written-ok :
    (detail : Value) (outcome : Result Value) (before after j : Journal) (result : Value)
    → written detail outcome before after ≡ (j, ok result)
    → (j ≡ after) × (outcome ≡ ok result)
unfolding written
written-ok detail outcome before after j result h = elim (Result-cases (canonical_json detail)) [
  | inr (x, failed) ↦ absurd (ground arith)
  | inl (text, printed) ↦ (ground arith, ground arith)
]

-- The journal is the one before the write or the one after it.
pub written-keeps {ℓ} :
    (P : Journal → Type ℓ) (detail : Value) (outcome : Result Value) (before after : Journal)
    → P before
    → P after
    → P (written detail outcome before after).0
unfolding written
written-keeps P detail outcome before after p q = elim (Result-cases (canonical_json detail)) [
  | inr (x, failed) ↦ rw (written, failed) p
  | inl (text, printed) ↦ rw (written, printed) q
]
