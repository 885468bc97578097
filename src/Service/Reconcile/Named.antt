-- ===== src/Service/Reconcile/Named.antt =====
-- Which entries of the journal the commands of a report settle, in the loop of `reconcile` of
-- scripts/host-helper-service.mjs.
use repo_assessment_kit.Prelude.{
  ℕ, ◌≡◌, refl, sym, ap, ◌∙◌, ◌⊎◌, inl, inr, String, true, some, List, [], ◌∷◌, arith, ◌==◌, ◌&&◌,
  eq_iff, Bool-cases, Option-cases, &&-eq-true, if◌then◌else◌,
}
use repo_assessment_kit.Prelude.Dict.{lookup, lookup-insert}
use repo_assessment_kit.Prelude.Result.{
  ok, require, first_ok, bound_ok, require-eq-ok, Result-cases, invalid_transition,
}
use repo_assessment_kit.Json.{Value, str, get, is_text}
use repo_assessment_kit.Journal.{Entry, Journal, settled, is_pending, reconcile_accepted}
use repo_assessment_kit.Journal.Complete.{reconcile_accepted-Reconciled}
use repo_assessment_kit.Journal.Pending.{settled-not_pending}
use repo_assessment_kit.Protocol.Grammar.{Platform}
use repo_assessment_kit.Protocol.Requests.Accepts.{eq-str_of_is_text}
use repo_assessment_kit.Service.Reconcile.{
  find_pending, reconciled_response, is_final, reconcile_command, reconcile_commands,
}
use repo_assessment_kit.Service.Reconcile.Settled.{found_command, commands_next, commands_refused}

-- A command that the report gives for a key and a digest, with a final result.
abbrev pub Names : List Value → String → String → Type 0
Names [] id request_digest = ⊥
Names (command ∷ commands) id request_digest =
    (get command "idempotencyKey" ≡ str id)
      × (get command "requestDigest" ≡ str request_digest)
      × (is_final (get command "result") ≡ true)
    ⊎ Names commands id request_digest

-- The entry was pending, was named, and holds a response now.
pub record Settles (commands : List Value) (j j' : Journal) (id : String) : Type 0 where
  pub entry : Entry
  pub stored : lookup id j.idempotency ≡ some entry
  pub pending : is_pending entry ≡ true
  pub named : Names commands id entry.request_digest
  pub response : Value
  pub after : lookup id j'.idempotency ≡ some (settled entry response)

abbrev pub Same : Journal → Journal → String → Type 0
Same j j' id = lookup id j'.idempotency ≡ lookup id j.idempotency

find_pending-text :
    (command : Value) (pending : List (String × Entry)) {id : String} {expected : Entry}
    → find_pending command pending ≡ some (id, expected)
    → (get command "idempotencyKey" ≡ str id)
      × (get command "requestDigest" ≡ str expected.request_digest)
unfolding find_pending
find_pending-text command [] h = cc
find_pending-text command ((k, entry) ∷ others) {id} {expected} h =
    elim (Bool-cases (
      is_text (get command "idempotencyKey") k
      && is_text (get command "requestDigest") entry.request_digest)) [
        | inr other ↦ find_pending-text command others (rw other at h)
        | inl both ↦
            let (same_key, same_digest) = &&-eq-true _ _ both in
            let found : some (k, entry) ≡ some (id, expected) = rw both at h in
            let found_key : k ≡ id = cc in
            let found_entry : entry ≡ expected = cc in
            (
              eq-str_of_is_text (get command "idempotencyKey") k same_key ∙ ap str found_key,
              eq-str_of_is_text (get command "requestDigest") entry.request_digest same_digest
                  ∙ ap (λ e. str e.request_digest) found_entry,
            )
      ]

reconciled_one :
    (command : Value) (id request_digest : String) (response : Value) (j j' : Journal)
    → get command "idempotencyKey" ≡ str id
    → get command "requestDigest" ≡ str request_digest
    → is_final (get command "result") ≡ true
    → reconcile_accepted id request_digest response j ≡ ok j'
    → (k : String) → Same j j' k ⊎ Settles (command ∷ []) j j' k
reconciled_one command id request_digest response j j' named digested final h k =
    let r = reconcile_accepted-Reconciled id request_digest response j j' h in
    let written : lookup k j'.idempotency
        ≡ (if id == k then some (settled r.entry response) else lookup k j.idempotency) =
      rw r.after (lookup-insert id k (settled r.entry response) j.idempotency) in
    elim (Bool-cases (id == k)) [
      | inr other ↦ inl (rw other at written)
      | inl same ↦
          let e : id ≡ k = (eq_iff id k).0 same in
          inr record {
            entry = r.entry;
            stored = ap (λ t. lookup t j.idempotency) (sym e) ∙ r.stored;
            pending = r.pending;
            named = inl (named ∙ ap str e, digested ∙ ap str (sym r.same_digest), final);
            response = response;
            after = rw same at written;
          }
    ]

Names-first :
    (command : Value) (commands : List Value) (id request_digest : String)
    → Names (command ∷ []) id request_digest
    → Names (command ∷ commands) id request_digest
Names-first command commands id request_digest (inl named) = inl named
Names-first command commands id request_digest (inr no_other) = absurd no_other

-- What one command and those after it have settled.
settle-both :
    (command : Value) (commands : List Value) (j k l : Journal) (id : String)
    → Same j k id ⊎ Settles (command ∷ []) j k id
    → Same k l id ⊎ Settles commands k l id
    → Same j l id ⊎ Settles (command ∷ commands) j l id
settle-both command commands j k l id (inl same) (inl same') = inl (same' ∙ same)
settle-both command commands j k l id (inl same) (inr s) = inr record {
  entry = s.entry;
  stored = sym same ∙ s.stored;
  pending = s.pending;
  named = inr s.named;
  response = s.response;
  after = s.after;
}
settle-both command commands j k l id (inr s) (inl same) = inr record {
  entry = s.entry;
  stored = s.stored;
  pending = s.pending;
  named = Names-first command commands id s.entry.request_digest s.named;
  response = s.response;
  after = same ∙ s.after;
}
settle-both command commands j k l id (inr s) (inr t) =
    let same : some t.entry ≡ some (settled s.entry s.response) = sym t.stored ∙ s.after in
    let entry : t.entry ≡ settled s.entry s.response = cc in
    cc (ap is_pending entry, t.pending, settled-not_pending s.entry s.response)

module _ (node : Platform) (key : List ℕ) (installation : String) where
  command-Settles :
      (pending : List (String × Entry)) (time : String) (command : Value) (j j' : Journal)
      → reconcile_command node key installation pending time command j ≡ ok j'
      → (id : String) → Same j j' id ⊎ Settles (command ∷ []) j j' id
  unfolding reconcile_command
  command-Settles pending time command j j' h = elim (Option-cases (find_pending command pending)) [
    | inl e ↦ absurd (ground arith)
    | inr ((id, expected), e) ↦
        let block =
          sym (found_command node key installation pending time command j id expected e) ∙ h in
        let (final, block') =
          first_ok (require (is_final (get command "result")) invalid_transition) _ block in
        let (response, _, accepted) =
          bound_ok (reconciled_response node key installation expected (get command "result") time)
            (λ response. reconcile_accepted id expected.request_digest response j) block' in
        let (named, digested) = find_pending-text command pending e in
        reconciled_one command id expected.request_digest response j j' named digested
          (require-eq-ok _ invalid_transition final) accepted
  ]

  pub commands-Settles :
      (pending : List (String × Entry)) (time : String) (commands : List Value) (j : Journal)
      (id : String)
      → Same j (reconcile_commands node key installation pending time commands j).0 id
        ⊎ Settles commands j (reconcile_commands node key installation pending time commands j).0 id
  commands-Settles pending time [] j id = unfold reconcile_commands in inl refl
  commands-Settles pending time (command ∷ commands) j id =
      elim (Result-cases (reconcile_command node key installation pending time command j)) [
        | inr (x, e) ↦
            rw (commands_refused node key installation pending time command commands j x e)
              (inl refl)
        | inl (k, e) ↦
            rw (commands_next node key installation pending time command commands j k e) (
              settle-both command commands j k _ id (command-Settles pending time command j k e id)
                (commands-Settles pending time commands k id))
      ]
