-- ===== src/Journal/Guarantees.antt =====
-- What the journal of scripts/host-helper-journal.mjs promises about the commands that it admits,
-- whatever operations run between two admissions.
use repo_assessment_kit.Prelude.{
  ℕ, ◌≤◌, ◌≡◌, sym, ◌∙◌, ap, ◌⊎◌, inl, inr, ◌≢◌, none, some, arith, eq_iff,
}
use repo_assessment_kit.Prelude.Dict.{lookup, lookup-insert_self}
use repo_assessment_kit.Prelude.Result.{ok, throws, idempotency_conflict, invalid_transition}
use repo_assessment_kit.Json.{Value}
use repo_assessment_kit.Journal.{
  Request, Entry, Journal, fresh, replayed, scope_of, accepted_entry, admit, settled, complete,
}
use repo_assessment_kit.Journal.Admit.{Fresh, admit-Fresh, unused_nonce, fence_above}
use repo_assessment_kit.Journal.Complete.{complete-Completed}
use repo_assessment_kit.Journal.Growth.{Steps, Extends, SameCommand, Steps-Extends}

-- What a fresh admission leaves in the journal, and every later journal still holds.
record Remembered (r : Request) (j : Journal) : Type 0 where
  counter : (n : ℕ) × (lookup (scope_of r) j.counters ≡ some n) × (r.counter ≤ n)
  nonce : lookup r.nonce j.nonces ≡ some r.request_digest
  fence : (n : ℕ) × (lookup r.run_id j.fences ≡ some n) × (r.fence_token ≤ n)
  entry :
      (e : Entry) × (lookup r.idempotency_key j.idempotency ≡ some e)
      × SameCommand (accepted_entry r) e

Fresh-Remembered : (r : Request) (j j' : Journal) → Fresh r j j' → Remembered r j'
Fresh-Remembered r j j' f = rw f.after (record {
  counter = (r.counter, lookup-insert_self (scope_of r) r.counter j.counters, omega arith);
  nonce = lookup-insert_self r.nonce r.request_digest j.nonces;
  fence = (r.fence_token, lookup-insert_self r.run_id r.fence_token j.fences, omega arith);
  entry = (
    accepted_entry r,
    lookup-insert_self r.idempotency_key (accepted_entry r) j.idempotency,
    ground arith,
  );
})

Extends-Remembered : (r : Request) (j k : Journal) → Extends j k → Remembered r j → Remembered r k
Extends-Remembered r j k x m =
    let (c, c₁, c₂) = m.counter in
    let (d, d₁, d₂) = x.counters (scope_of r) c c₁ in
    let (f, f₁, f₂) = m.fence in
    let (g, g₁, g₂) = x.fences r.run_id f f₁ in
    let (e, e₁, e₂) = m.entry in
    let (h, h₁, h₂) = x.bindings r.idempotency_key e e₁ in
    record {
      counter = (d, d₁, omega arith);
      nonce = x.nonces r.nonce r.request_digest m.nonce;
      fence = (g, g₁, omega arith);
      entry = (h, h₁, ground arith);
    }

-- The journal still remembers a command that it has admitted, whatever ran since.
later : (r : Request) (j k l : Journal) → admit r j ≡ ok (fresh, k) → Steps k l → Remembered r l
later r j k l h steps =
    Extends-Remembered r k l (Steps-Extends steps) (Fresh-Remembered r j k (admit-Fresh r j k h))

-- After a command was admitted, no request with the same nonce, and none of the same installation
-- and run whose counter is not greater, is ever admitted as a new command, whatever operations run
-- in between.
pub no_replay :
    (r r' : Request) (j k l m : Journal)
    → admit r j ≡ ok (fresh, k)
    → Steps k l
    → (r'.nonce ≡ r.nonce) ⊎ (scope_of r' ≡ scope_of r) × (r'.counter ≤ r.counter)
    → admit r' l ≢ ok (fresh, m)
no_replay r r' j k l m h steps (inl same) again =
    let seen = (later r j k l h steps).nonce in
    let unused = unused_nonce r'.nonce l (admit-Fresh r' l m again).unused in
    cc (ap (λ n. lookup n l.nonces) same)
no_replay r r' j k l m h steps (inr (same, low)) again =
    let (n, stored, above) = (later r j k l h steps).counter in
    let checked = (admit-Fresh r' l m again).above in
    let found : lookup (scope_of r') l.counters ≡ some n =
      ap (λ s. lookup s l.counters) same ∙ stored in
    ground arith

-- Fence tokens of one run never fall: of two commands of a run that are admitted one after the
-- other, with any operations in between, the later has a fence token that is not smaller.
pub fence_monotone :
    (r r' : Request) (j k l m : Journal)
    → admit r j ≡ ok (fresh, k)
    → Steps k l
    → admit r' l ≡ ok (fresh, m)
    → r'.run_id ≡ r.run_id
    → r.fence_token ≤ r'.fence_token
fence_monotone r r' j k l m h steps again same =
    let (n, stored, above) = (later r j k l h steps).fence in
    let found : lookup r'.run_id l.fences ≡ some n = ap (λ s. lookup s l.fences) same ∙ stored in
    omega (arith, fence_above r' l (admit-Fresh r' l m again) n found)

-- An idempotency key stays bound to the command that was admitted under it: a later request with
-- that key and another digest or another operation is refused as a conflict.
pub key_bound :
    (r r' : Request) (j k l : Journal)
    → admit r j ≡ ok (fresh, k)
    → Steps k l
    → r'.idempotency_key ≡ r.idempotency_key
    → (r'.request_digest ≢ r.request_digest) ⊎ (r'.operation ≢ r.operation)
    → admit r' l ≡ throws idempotency_conflict
unfolding admit
key_bound r r' j k l h steps same other =
    let (e, stored, command) = (later r j k l h steps).entry in
    let found : lookup r'.idempotency_key l.idempotency ≡ some e =
      ap (λ s. lookup s l.idempotency) same ∙ stored in
    ground (arith, eq_iff e.request_digest r'.request_digest, eq_iff e.operation r'.operation)

-- What a journal answers to a command that it has admitted before, by its entry.
abbrev pub Answer : Request → Entry → Journal → Type 0
Answer r e j = elim e.result [
  | none ↦ admit r j ≡ throws invalid_transition
  | some response ↦ admit r j ≡ ok (replayed response, j)
]

answered :
    (r : Request) (e : Entry) (j : Journal)
    → lookup r.idempotency_key j.idempotency ≡ some e
    → SameCommand (accepted_entry r) e
    → Answer r e j
unfolding admit
answered r e j found command =
    let digest : e.request_digest ≡ r.request_digest = command.request_digest in
    let operation : e.operation ≡ r.operation = command.operation in
    ground (arith, eq_iff e.request_digest r.request_digest, eq_iff e.operation r.operation)

-- Whatever operations run after a command was admitted, sending it again is never a new admission and
-- never a conflict: its entry is still there, for the same command; where the entry holds no result,
-- the copy is refused with INVALID_TRANSITION, and where it holds one, exactly that is returned and the
-- journal stays as it is.
pub admit-resent :
    (r : Request) (j k l : Journal)
    → admit r j ≡ ok (fresh, k)
    → Steps k l
    → (e : Entry) × (lookup r.idempotency_key l.idempotency ≡ some e)
      × SameCommand (accepted_entry r) e
      × Answer r e l
admit-resent r j k l h steps =
    let (e, stored, command) = (later r j k l h steps).entry in
    (e, stored, command, answered r e l stored command)

-- Once an admitted command is completed, sending it again returns exactly the stored response and
-- leaves the journal as it is, whatever operations ran between admission and completion.
pub complete-replayed :
    (r : Request) (response : Value) (j k l m : Journal)
    → admit r j ≡ ok (fresh, k)
    → Steps k l
    → complete r response l ≡ ok m
    → admit r m ≡ ok (replayed response, m)
unfolding admit
complete-replayed r response j k l m h steps done =
    let c = complete-Completed r response l m done in
    let found : lookup r.idempotency_key m.idempotency ≡ some (settled c.admission response) =
      rw c.idempotency
        (lookup-insert_self r.idempotency_key (settled c.admission response) l.idempotency) in
    let (e, stored, command) = (later r j k l h steps).entry in
    let same : some e ≡ some c.admission = sym stored ∙ c.stored in
    let digest = c.same_digest in
    ground (
      arith,
      eq_iff c.admission.request_digest r.request_digest,
      eq_iff c.admission.operation r.operation,
    )
