-- ===== src/Journal/Growth.antt =====
-- How the journal of scripts/host-helper-journal.mjs grows: whatever operations run, and in
-- whatever order, counters and fences never fall, used nonces stay used, and an idempotency key
-- stays bound to the command that was admitted under it.
use native.Mathlib.Nat.{le_refl}
use repo_assessment_kit.Prelude.{
  ℕ, ◌≤◌, ◌≡◌, sym, ◌∙◌, ap, String, none, some, List, arith, ◌==◌, eq_iff, Bool-cases, inl, inr,
}
use repo_assessment_kit.Prelude.Dict.{lookup, insert, lookup-insert}
use repo_assessment_kit.Prelude.Result.{ok}
use repo_assessment_kit.Json.{Value}
use repo_assessment_kit.Journal.{
  Request, Entry, Journal, Admission, fresh, replayed, scope_of, accepted_entry, admit, settle,
  settled, complete, reconcile_accepted, record_maintenance,
}
use repo_assessment_kit.Journal.Admit.{Fresh, unused_nonce, fence_above, admit-Fresh, admit-Replay}
use repo_assessment_kit.Journal.Complete.{complete-Completed, reconcile_accepted-Reconciled}

-- One operation of the journal, run to its end.
pub data Step (j : Journal) : Journal → Type 0 where
  admitted : (r : Request) (a : Admission) {j' : Journal} → admit r j ≡ ok (a, j') → Step j j'
  completed :
      (r : Request) (response : Value) {j' : Journal} → complete r response j ≡ ok j' → Step j j'
  reconciled :
      (key request_digest : String) (response : Value) {j' : Journal}
      → reconcile_accepted key request_digest response j ≡ ok j'
      → Step j j'
  maintained :
      (resource_id phase : String) (detail : Value) (recorded_at : String)
      → Step j (record_maintenance resource_id phase detail recorded_at j)

pub data Steps (j : Journal) : Journal → Type 0 where
  here : Steps j j
  next : {k l : Journal} → Steps j k → Step k l → Steps j l

-- The command to which an idempotency key is bound.
pub record SameCommand (a b : Entry) : Type 0 where
  pub request_digest : b.request_digest ≡ a.request_digest
  pub operation : b.operation ≡ a.operation
  pub request_id : b.request_id ≡ a.request_id
  pub command_id : b.command_id ≡ a.command_id
  pub run_id : b.run_id ≡ a.run_id
  pub attempt_id : b.attempt_id ≡ a.attempt_id
  pub fence_token : b.fence_token ≡ a.fence_token

-- Every number of the first dictionary is in the second one, or a greater one is.
abbrev pub Rises : List (String × ℕ) → List (String × ℕ) → Type 0
Rises m m' =
    (k : String) (n : ℕ) → lookup k m ≡ some n → (n' : ℕ) × (lookup k m' ≡ some n') × (n ≤ n')

abbrev pub Keeps : List (String × String) → List (String × String) → Type 0
Keeps m m' = (k v : String) → lookup k m ≡ some v → lookup k m' ≡ some v

abbrev pub Binds : List (String × Entry) → List (String × Entry) → Type 0
Binds m m' =
    (k : String) (e : Entry)
    → lookup k m ≡ some e
    → (e' : Entry) × (lookup k m' ≡ some e') × SameCommand e e'

pub record Extends (j j' : Journal) : Type 0 where
  pub counters : Rises j.counters j'.counters
  pub nonces : Keeps j.nonces j'.nonces
  pub fences : Rises j.fences j'.fences
  pub bindings : Binds j.idempotency j'.idempotency

SameCommand-refl : (e : Entry) → SameCommand e e
SameCommand-refl e = ground arith

Rises-refl : (m : List (String × ℕ)) → Rises m m
Rises-refl m k n h = (n, h, le_refl n)

Binds-refl : (m : List (String × Entry)) → Binds m m
Binds-refl m k e h = (e, h, SameCommand-refl e)

pub Extends-refl : (j : Journal) → Extends j j
Extends-refl j = record {
  counters = Rises-refl j.counters;
  nonces = λ k v h. h;
  fences = Rises-refl j.fences;
  bindings = Binds-refl j.idempotency;
}

Rises-trans : (l m n : List (String × ℕ)) → Rises l m → Rises m n → Rises l n
Rises-trans l m n p q k a h =
    let (b, hb, ab) = p k a h in let (c, hc, bc) = q k b hb in (c, hc, omega arith)

SameCommand-trans : (a b c : Entry) → SameCommand a b → SameCommand b c → SameCommand a c
SameCommand-trans a b c p q = record {
  request_digest = cc;
  operation = cc;
  request_id = cc;
  command_id = cc;
  run_id = cc;
  attempt_id = cc;
  fence_token = cc;
}

pub Extends-trans : (j k l : Journal) → Extends j k → Extends k l → Extends j l
Extends-trans j k l p q = record {
  counters = Rises-trans j.counters k.counters l.counters p.counters q.counters;
  nonces = λ a v h. q.nonces a v (p.nonces a v h);
  fences = Rises-trans j.fences k.fences l.fences p.fences q.fences;
  bindings = λ a e h.
      let (e₁, h₁, s₁) = p.bindings a e h in
      let (e₂, h₂, s₂) = q.bindings a e₁ h₁ in (e₂, h₂, SameCommand-trans e e₁ e₂ s₁ s₂);
}

-- Writing a number that is not below the old one.
Rises-insert :
    (k : String) (n : ℕ) (m : List (String × ℕ))
    → ((old : ℕ) → lookup k m ≡ some old → old ≤ n)
    → Rises m (insert k n m)
Rises-insert k n m above j a h = elim (Bool-cases (k == j)) [
  | inl same ↦
      let e : k ≡ j = (eq_iff k j).0 same in (n, rw (lookup-insert k j n m, same), above a (rw e h))
  | inr other ↦ (a, rw (lookup-insert k j n m, other) h, le_refl a)
]

-- Writing under a key that has no entry.
Keeps-insert :
    (k w : String) (m : List (String × String)) → lookup k m ≡ none → Keeps m (insert k w m)
Keeps-insert k w m unused j v h = elim (Bool-cases (k == j)) [
  | inl same ↦ let e : k ≡ j = (eq_iff k j).0 same in cc (ap (λ i. lookup i m) e)
  | inr other ↦ rw (lookup-insert k j w m, other) h
]

-- Writing an entry of the same command.
Binds-insert :
    (k : String) (e : Entry) (m : List (String × Entry))
    → ((old : Entry) → lookup k m ≡ some old → SameCommand old e)
    → Binds m (insert k e m)
Binds-insert k e m same_command j a h = elim (Bool-cases (k == j)) [
  | inl same ↦
      let p : k ≡ j = (eq_iff k j).0 same in
      (e, rw (lookup-insert k j e m, same), same_command a (rw p h))
  | inr other ↦ (a, rw (lookup-insert k j e m, other) h, SameCommand-refl a)
]

Extends-settle :
    (key : String) (entry : Entry) (response : Value) (j : Journal)
    → lookup key j.idempotency ≡ some entry
    → Extends j (settle key entry response j)
Extends-settle key entry response j e = record {
  counters = Rises-refl j.counters;
  nonces = λ k v h. h;
  fences = Rises-refl j.fences;
  bindings =
      Binds-insert key (settled entry response) j.idempotency
        (λ old h. let same : some old ≡ some entry = sym h ∙ e in ground arith);
}

-- A fresh admission is such a growth, too.
Fresh-Extends : (r : Request) (j j' : Journal) → Fresh r j j' → Extends j j'
Fresh-Extends r j j' f = rw f.after record {
  counters = Rises-insert (scope_of r) r.counter j.counters (λ old h. ground (arith, f.above));
  nonces = Keeps-insert r.nonce r.request_digest j.nonces (unused_nonce r.nonce j f.unused);
  fences = Rises-insert r.run_id r.fence_token j.fences (λ old h. fence_above r j f old h);
  bindings =
      Binds-insert r.idempotency_key (accepted_entry r) j.idempotency (λ old h. cc (f.new_key));
}

Extends-same_book :
    (j k l : Journal)
    → Extends j k
    → l.counters ≡ k.counters
    → l.nonces ≡ k.nonces
    → l.fences ≡ k.fences
    → l.idempotency ≡ k.idempotency
    → Extends j l
Extends-same_book j k l x c n f i = record {
  counters = rw c x.counters;
  nonces = rw n x.nonces;
  fences = rw f x.fences;
  bindings = rw i x.bindings;
}

pub Step-Extends : {j j' : Journal} → Step j j' → Extends j j'
unfolding record_maintenance
Step-Extends {j} (admitted r fresh {j'} h) = Fresh-Extends r j j' (admit-Fresh r j j' h)
Step-Extends {j} (admitted r (replayed v) {j'} h) =
    rw (admit-Replay r j j' v h).unchanged (Extends-refl j)
Step-Extends {j} (completed r response {j'} h) =
    let c = complete-Completed r response j j' h in
    Extends-same_book j (settle r.idempotency_key c.admission response j) j'
      (Extends-settle r.idempotency_key c.admission response j c.stored) c.counters c.nonces
      c.fences c.idempotency
Step-Extends {j} (reconciled key request_digest response {j'} h) =
    let c = reconcile_accepted-Reconciled key request_digest response j j' h in
    rw c.after (Extends-settle key c.entry response j c.stored)
Step-Extends {j} (maintained resource_id phase detail recorded_at) = record {
  counters = Rises-refl j.counters;
  nonces = λ k v h. h;
  fences = Rises-refl j.fences;
  bindings = Binds-refl j.idempotency;
}

pub Steps-Extends : {j j' : Journal} → Steps j j' → Extends j j'
Steps-Extends {j} here = Extends-refl j
Steps-Extends {j} {j'} (next {k} more step) =
    Extends-trans j k j' (Steps-Extends more) (Step-Extends step)
