-- ===== src/Service/Reconcile/Settled.antt =====
-- What `reconcile` of scripts/host-helper-service.mjs settles: all commands that were pending.
use repo_assessment_kit.Prelude.{
  ℕ, ◌+◌, ◌≡◌, refl, ap, sym, ◌∙◌, String, Option, none, some, List, [], ◌∷◌, length, arith,
  Option-cases, inl, inr,
}
use repo_assessment_kit.Prelude.Result.{
  Error, Result, ok, throws, require, ◌>>=◌, ◌>>◌, first_ok, bound_ok, Result-cases,
  invalid_transition, auth_failed,
}
use repo_assessment_kit.Json.{Value, get}
use repo_assessment_kit.Journal.{
  Entry, Journal, pending_accepted, reconcile_accepted, record_maintenance,
}
use repo_assessment_kit.Journal.Pending.{
  length-pending-reconcile_accepted, pending-record_maintenance,
}
use repo_assessment_kit.Protocol.Grammar.{Platform}
use repo_assessment_kit.Service.Reconcile.Written.{written-ok}
use repo_assessment_kit.Service.Reconcile.{
  find_pending, reconciled_response, is_final, reconcile_command, reconcile_commands, commands_ok,
  commands_of, counted, checked_result, finish_reconcile, reconcile_result, reconcile, run_ids,
  unique, summary,
}

-- The parts of a block that has returned.
pub returned_last {ℓ κ} :
    {A : Type ℓ} {B : Type κ} (first : Result (Unit {0})) (m : Result A) (f : A → Result B) {b : B}
    → (first >> (m >>= f)) ≡ ok b
    → (a : A) × (f a ≡ ok b)
returned_last first m f h =
    let (_, h') = first_ok first (m >>= f) h in let (a, _, last) = bound_ok m f h' in (a, last)

pub counted-length :
    (n : ℕ) (o : Option (List Value)) (commands : List Value)
    → counted n o ≡ ok commands
    → length commands ≡ n
unfolding counted commands_ok
counted-length n none commands h = cc
counted-length n (some cs) commands h = ground arith

length-eq-zero {ℓ} : {A : Type ℓ} (xs : List A) → length xs ≡ 0 → xs ≡ []
length-eq-zero [] h = refl
length-eq-zero (x ∷ xs) h = absurd (omega arith)

module _ (node : Platform) (key : List ℕ) (installation : String) where
  pub found_command :
      (pending : List (String × Entry)) (time : String) (command : Value) (j : Journal)
      (id : String) (expected : Entry)
      → find_pending command pending ≡ some (id, expected)
      → reconcile_command node key installation pending time command j ≡ (
          require (is_final (get command "result")) invalid_transition
          >> (reconciled_response node key installation expected (get command "result") time
              >>= λ response. reconcile_accepted id expected.request_digest response j))
  unfolding reconcile_command
  found_command pending time command j id expected e = rw (reconcile_command, e) refl

  -- A command that is reconciled is one reconciliation of the journal.
  pub reconcile_command-accepted :
      (pending : List (String × Entry)) (time : String) (command : Value) (j j' : Journal)
      → reconcile_command node key installation pending time command j ≡ ok j'
      → (id : String) × (request_digest : String) × (response : Value) × (reconcile_accepted id
            request_digest response j
          ≡ ok j')
  unfolding reconcile_command
  reconcile_command-accepted pending time command j j' h =
      elim (Option-cases (find_pending command pending)) [
        | inl e ↦ absurd (ground arith)
        | inr ((id, expected), e) ↦
            let (response, accepted) =
              returned_last (require (is_final (get command "result")) invalid_transition)
                (reconciled_response node key installation expected (get command "result") time)
                (λ response. reconcile_accepted id expected.request_digest response j)
                (sym (found_command pending time command j id expected e) ∙ h) in
            (id, expected.request_digest, response, accepted)
      ]

  pub commands_next :
      (pending : List (String × Entry)) (time : String) (command : Value) (commands : List Value)
      (j k : Journal)
      → reconcile_command node key installation pending time command j ≡ ok k
      → reconcile_commands node key installation pending time (command ∷ commands) j
        ≡ reconcile_commands node key installation pending time commands k
  unfolding reconcile_commands
  commands_next pending time command commands j k e = rw (reconcile_commands, e) refl

  pub commands_refused :
      (pending : List (String × Entry)) (time : String) (command : Value) (commands : List Value)
      (j : Journal) (x : Error)
      → reconcile_command node key installation pending time command j ≡ throws x
      → reconcile_commands node key installation pending time (command ∷ commands) j ≡ (j, throws x)
  unfolding reconcile_commands
  commands_refused pending time command commands j x e = rw (reconcile_commands, e) refl

  commands-settle :
      (pending : List (String × Entry)) (time : String) (commands : List Value) (j j' : Journal)
      → reconcile_commands node key installation pending time commands j ≡ (j', ok tt)
      → length (pending_accepted j) ≡ length commands + length (pending_accepted j')
  commands-settle pending time [] j j' h =
      unfold reconcile_commands in omega (arith, ap (λ p. length (pending_accepted p.0)) h)
  commands-settle pending time (command ∷ commands) j j' h =
      elim (Result-cases (reconcile_command node key installation pending time command j)) [
        | inr (x, e) ↦ cc (commands_refused pending time command commands j x e)
        | inl (k, e) ↦
            let (id, d, response, accepted) =
              reconcile_command-accepted pending time command j k e in
            omega (
              arith,
              length-pending-reconcile_accepted id d response j k accepted,
              commands-settle pending time commands k j'
                  (sym (commands_next pending time command commands j k e) ∙ h),
            )
      ]

  checked_result-length :
      (result : Value) (n : ℕ) (commands : List Value)
      → checked_result node key installation result n ≡ ok commands
      → length commands ≡ n
  checked_result-length result n commands h =
      unfold checked_result in
      let (_, h') =
        first_ok (require _ auth_failed) (require _ invalid_transition >> counted n _) h in
      let (_, h'') = first_ok (require _ invalid_transition) (counted n _) h' in
      counted-length n (commands_of (get result "reconciledCommands")) commands h''

  pub result_checked :
      (time : String) (j : Journal) (v : Value) (commands : List Value)
      → checked_result node key installation v (length (pending_accepted j)) ≡ ok commands
      → reconcile_result node key installation time j (ok v)
        ≡ finish_reconcile node key installation v
            (length (pending_accepted j))
            time
            (reconcile_commands node key installation (pending_accepted j) time commands j)
  unfolding reconcile_result
  result_checked time j v commands e = rw (reconcile_result, e) refl

  pub result_refused :
      (time : String) (j : Journal) (v : Value) (x : Error)
      → checked_result node key installation v (length (pending_accepted j)) ≡ throws x
      → reconcile_result node key installation time j (ok v) ≡ (j, throws x)
  unfolding reconcile_result
  result_refused time j v x e = rw (reconcile_result, e) refl

  finished :
      (v : Value) (n : ℕ) (time : String) (p : Journal × Result (Unit {0})) (j' : Journal)
      (result : Value)
      → finish_reconcile node key installation v n time p ≡ (j', ok result)
      → (p ≡ (p.0, ok tt)) × (pending_accepted j' ≡ pending_accepted p.0)
  unfolding finish_reconcile
  finished v n time (k, throws x) j' result h = cc
  finished v n time (k, ok tt) j' result h =
      let detail = summary node key installation v n in
      let after = record_maintenance "installation" "RECONCILED" detail time k in
      let (left, _) = written-ok detail (ok v) k after j' result h in
      (
        refl,
        ap pending_accepted left
            ∙ pending-record_maintenance "installation" "RECONCILED" detail time k,
      )

  result-settles :
      (time : String) (j j' : Journal) (r : Result Value) (result : Value)
      → reconcile_result node key installation time j r ≡ (j', ok result)
      → pending_accepted j' ≡ []
  result-settles time j j' (throws x) result h = unfold reconcile_result in cc
  result-settles time j j' (ok v) result h =
      let n = length (pending_accepted j) in
      elim (Result-cases (checked_result node key installation v n)) [
        | inr (x, e) ↦ cc (result_refused time j v x e)
        | inl (commands, e) ↦
            let p = reconcile_commands node key installation (pending_accepted j) time commands j in
            let (settled_all, same) =
              finished v n time p j' result (sym (result_checked time j v commands e) ∙ h) in
            same
            ∙ length-eq-zero (pending_accepted p.0) (
                omega (
                  arith,
                  commands-settle (pending_accepted j) time commands j p.0 settled_all,
                  checked_result-length v n commands e,
                ))
      ]

  -- If the reconciliation returns, no command is pending any more: every command that was admitted
  -- without a result has one.
  pub reconcile-settles :
      (driver : Option (List String → Result Value)) (time : String) (j j' : Journal)
      (result : Value)
      → reconcile node key installation driver time j ≡ (j', ok result)
      → pending_accepted j' ≡ []
  reconcile-settles none time j j' result h = unfold reconcile in cc
  reconcile-settles (some driver) time j j' result h =
      unfold reconcile in
      result-settles time _ j' (driver (unique [] (run_ids j.resources))) result h
