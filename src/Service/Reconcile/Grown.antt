-- ===== src/Service/Reconcile/Grown.antt =====
-- Whatever becomes of it, `reconcile` of scripts/host-helper-service.mjs changes the journal by operations of
-- the journal.
use repo_assessment_kit.Prelude.{ℕ, inl, inr, String, List, [], ◌∷◌, length}
use repo_assessment_kit.Prelude.Result.{Result, ok, throws, Result-cases}
use repo_assessment_kit.Json.{Value}
use repo_assessment_kit.Journal.{Entry, Journal, pending_accepted, record_maintenance}
use repo_assessment_kit.Journal.Growth.{Steps, next, reconciled, maintained}
use repo_assessment_kit.Protocol.Grammar.{Platform}
use repo_assessment_kit.Service.Reconcile.Written.{written-keeps}
use repo_assessment_kit.Service.Reconcile.{
  summary, reconcile_command, reconcile_commands, checked_result, finish_reconcile,
  reconcile_result,
}
use repo_assessment_kit.Service.Reconcile.Settled.{
  reconcile_command-accepted, commands_next, commands_refused, result_checked, result_refused,
}

module _ (node : Platform) (key : List ℕ) (installation : String) where
  -- Whatever becomes of them, the commands are operations of the journal.
  pub commands-Steps :
      (start : Journal) (pending : List (String × Entry)) (time : String) (commands : List Value)
      (j : Journal)
      → Steps start j
      → Steps start (reconcile_commands node key installation pending time commands j).0
  commands-Steps start pending time [] j s = unfold reconcile_commands in s
  commands-Steps start pending time (command ∷ commands) j s =
      elim (Result-cases (reconcile_command node key installation pending time command j)) [
        | inr (x, e) ↦
            rw (commands_refused node key installation pending time command commands j x e) s
        | inl (k, e) ↦
            let (id, d, response, accepted) =
              reconcile_command-accepted node key installation pending time command j k e in
            rw (commands_next node key installation pending time command commands j k e) (
              commands-Steps start pending time commands k
                (next s (reconciled id d response accepted)))
      ]

  pub finish-Steps :
      (v : Value) (n : ℕ) (time : String) (start : Journal) (p : Journal × Result (Unit {0}))
      → Steps start p.0
      → Steps start (finish_reconcile node key installation v n time p).0
  unfolding finish_reconcile
  finish-Steps v n time start (k, throws x) s = s
  finish-Steps v n time start (k, ok tt) s =
      written-keeps (Steps start) (summary node key installation v n) (ok v) k
        (record_maintenance "installation" "RECONCILED" (summary node key installation v n) time k)
        s (next s (maintained "installation" "RECONCILED" _ time))

  pub result-Steps :
      (time : String) (start j : Journal) (r : Result Value)
      → Steps start j
      → Steps start (reconcile_result node key installation time j r).0
  result-Steps time start j (throws x) s = unfold reconcile_result in s
  result-Steps time start j (ok v) s =
      let n = length (pending_accepted j) in
      elim (Result-cases (checked_result node key installation v n)) [
        | inr (x, e) ↦ rw (result_refused node key installation time j v x e) s
        | inl (commands, e) ↦ rw (result_checked node key installation time j v commands e) (
            finish-Steps v n time start _
              (commands-Steps start (pending_accepted j) time commands j s))
      ]
