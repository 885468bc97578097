-- ===== src/Journal/Pending.antt =====
-- `pendingAccepted` and `reconcileAccepted` of scripts/host-helper-journal.mjs: a reconciliation settles one
-- pending command.
use repo_assessment_kit.Prelude.{
  suc, ◌≡◌, String, true, false, some, refl, List, [], ◌∷◌, length, arith,
}
use repo_assessment_kit.Prelude.Dict.{lookup, insert}
use repo_assessment_kit.Prelude.Result.{ok}
use repo_assessment_kit.Json.{Value}
use repo_assessment_kit.Journal.{
  Entry, Journal, settled, is_pending, pending_of, pending_accepted, reconcile_accepted,
  record_maintenance,
}
use repo_assessment_kit.Journal.Complete.{reconcile_accepted-Reconciled}

pub settled-not_pending : (e : Entry) (response : Value) → is_pending (settled e response) ≡ false
unfolding is_pending
settled-not_pending e response = ground arith

length-pending_of-insert :
    (key : String) (e e' : Entry) (m : List (String × Entry))
    → lookup key m ≡ some e
    → is_pending e ≡ true
    → is_pending e' ≡ false
    → length (pending_of m) ≡ suc (length (pending_of (insert key e' m)))
unfolding lookup insert pending_of
length-pending_of-insert key e e' [] h p q = absurd (ground arith)
length-pending_of-insert key e e' ((name, v) ∷ others) h p q =
    ground (arith, length-pending_of-insert key e e' others)

-- Each command that is reconciled leaves one less pending.
pub length-pending-reconcile_accepted :
    (key request_digest : String) (response : Value) (j j' : Journal)
    → reconcile_accepted key request_digest response j ≡ ok j'
    → length (pending_accepted j) ≡ suc (length (pending_accepted j'))
unfolding pending_accepted
length-pending-reconcile_accepted key request_digest response j j' h =
    let r = reconcile_accepted-Reconciled key request_digest response j j' h in
    rw r.after (
      length-pending_of-insert key r.entry (settled r.entry response) j.idempotency r.stored
        r.pending (settled-not_pending r.entry response))

pub pending-record_maintenance :
    (resource_id phase : String) (detail : Value) (recorded_at : String) (j : Journal)
    → pending_accepted (record_maintenance resource_id phase detail recorded_at j)
      ≡ pending_accepted j
unfolding pending_accepted record_maintenance
pending-record_maintenance resource_id phase detail recorded_at j = refl
