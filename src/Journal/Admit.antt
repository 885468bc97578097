-- ===== src/Journal/Admit.antt =====
-- What `admit` of scripts/host-helper-journal.mjs has checked when it succeeds.
use repo_assessment_kit.Prelude.{
  ℕ, ◌≤◌, ◌≡◌, String, false, none, some, arith, eq_iff, Bool-cases, Option-cases, inl, inr,
}
use repo_assessment_kit.Prelude.Dict.{lookup}
use repo_assessment_kit.Prelude.Result.{ok, Result-cases}
use repo_assessment_kit.Json.{Value, inherited}
use repo_assessment_kit.Journal.{
  Request, Entry, Journal, fresh, replayed, not_above, is_used, current_fence, scope_of,
  record_admission, admit, admit_new,
}

-- What has been checked and written when `admit` lets a new command through.
pub record Fresh (r : Request) (j j' : Journal) : Type 0 where
  pub new_key : lookup r.idempotency_key j.idempotency ≡ none
  pub not_inherited : inherited r.idempotency_key ≡ false
  pub above : not_above r.counter (lookup (scope_of r) j.counters) ≡ false
  pub unused : is_used r.nonce j ≡ false
  pub current : ℕ
  pub fence : current_fence r j ≡ ok current
  pub not_stale : current ≤ r.fence_token
  pub after : j' ≡ record_admission r j

admit_new-Fresh :
    (r : Request) (j j' : Journal)
    → lookup r.idempotency_key j.idempotency ≡ none
    → inherited r.idempotency_key ≡ false
    → admit_new r j ≡ ok (fresh, j')
    → Fresh r j j'
unfolding admit_new
admit_new-Fresh r j j' absent own h = elim (Result-cases (current_fence r j)) [
  | inl (current, e) ↦ record {
    new_key = absent;
    not_inherited = own;
    above = ground arith;
    unused = ground arith;
    current = current;
    fence = e;
    not_stale = ground arith;
    after = ground arith;
  }
  | inr (x, e) ↦ absurd (ground arith)
]

pub admit-Fresh : (r : Request) (j j' : Journal) → admit r j ≡ ok (fresh, j') → Fresh r j j'
unfolding admit
admit-Fresh r j j' h = elim (Option-cases (lookup r.idempotency_key j.idempotency)) [
  | inl absent ↦ elim (Bool-cases (inherited r.idempotency_key)) [
    | inl bad ↦ absurd (ground arith)
    | inr own ↦ admit_new-Fresh r j j' absent own (rw (absent, own, admit) at h)
  ]
  | inr (prior, e) ↦ absurd (ground arith)
]

-- A replay returns the stored result of the same command and writes nothing.
pub record Replay (r : Request) (j j' : Journal) (result : Value) : Type 0 where
  pub prior : Entry
  pub stored : lookup r.idempotency_key j.idempotency ≡ some prior
  pub same_digest : prior.request_digest ≡ r.request_digest
  pub same_operation : prior.operation ≡ r.operation
  pub result_stored : prior.result ≡ some result
  pub unchanged : j' ≡ j

pub admit-Replay :
    (r : Request) (j j' : Journal) (result : Value)
    → admit r j ≡ ok (replayed result, j')
    → Replay r j j' result
unfolding admit
admit-Replay r j j' result h = elim (Option-cases (lookup r.idempotency_key j.idempotency)) [
  | inl absent ↦ absurd (ground arith)
  | inr (prior, e) ↦ record {
    prior = prior;
    stored = e;
    same_digest = ground (arith, eq_iff prior.request_digest r.request_digest);
    same_operation = ground (arith, eq_iff prior.operation r.operation);
    result_stored = ground arith;
    unchanged = ground arith;
  }
]

pub unused_nonce :
    (nonce : String) (j : Journal) → is_used nonce j ≡ false → lookup nonce j.nonces ≡ none
unfolding is_used
unused_nonce nonce j h = ground arith

pub fence_above :
    (r : Request) (j : Journal) {j' : Journal}
    → Fresh r j j'
    → (old : ℕ) → lookup r.run_id j.fences ≡ some old
    → old ≤ r.fence_token
unfolding current_fence
fence_above r j f old h = ground (arith, f.fence, f.not_stale)
