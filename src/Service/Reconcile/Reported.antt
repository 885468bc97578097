-- ===== src/Service/Reconcile/Reported.antt =====
-- Which commands `reconcile` of scripts/host-helper-service.mjs settles: pending ones that the driver's
-- report names.
use repo_assessment_kit.Prelude.{
  ℕ, ◌≡◌, refl, sym, ap, ◌∙◌, ◌⊎◌, inl, inr, String, Option, none, some, List, [], length, arith,
}
use repo_assessment_kit.Prelude.Dict.{lookup}
use repo_assessment_kit.Prelude.Result.{
  Result, ok, throws, require, ◌>>◌, first_ok, require-eq-ok, Result-cases, invalid_transition,
  auth_failed,
}
use repo_assessment_kit.Json.{Value, str, get}
use repo_assessment_kit.Journal.{Journal, pending_accepted, record_maintenance}
use repo_assessment_kit.Journal.Growth.{
  here, next, maintained, Extends, Extends-refl, Steps-Extends,
}
use repo_assessment_kit.Protocol.Grammar.{Platform}
use repo_assessment_kit.Protocol.Requests.Accepts.{eq-str_of_is_text}
use repo_assessment_kit.Service.Reconcile.Written.{written-keeps}
use repo_assessment_kit.Service.Reconcile.{
  summary, reconcile_commands, commands_of, counted, checked_result, finish_reconcile,
  reconcile_result, reconcile, run_ids, unique,
}
use repo_assessment_kit.Service.Reconcile.Settled.{counted-length, result_checked, result_refused}
use repo_assessment_kit.Service.Reconcile.Grown.{result-Steps}
use repo_assessment_kit.Service.Reconcile.Named.{Settles, Same, commands-Settles}

module _ (node : Platform) (key : List ℕ) (installation : String) where
  -- The driver's report names this installation and as many commands as are pending.
  pub record IsReported (driver : Option (List String → Result Value)) (j : Journal)
      (commands : List Value) : Type 0 where
    pub drive : List String → Result Value
    pub driven : driver ≡ some drive
    pub report : Value
    pub returned : drive (unique [] (run_ids j.resources)) ≡ ok report
    pub same_installation : get report "installationId" ≡ str installation
    pub reported : commands_of (get report "reconciledCommands") ≡ some commands
    pub as_many : length commands ≡ length (pending_accepted j)

  counted-some :
      (n : ℕ) (o : Option (List Value)) (commands : List Value)
      → counted n o ≡ ok commands
      → o ≡ some commands
  unfolding counted
  counted-some n none commands h = cc
  counted-some n (some cs) commands h = ground arith

  checked_result-facts :
      (v : Value) (n : ℕ) (commands : List Value)
      → checked_result node key installation v n ≡ ok commands
      → (get v "installationId" ≡ str installation)
        × (commands_of (get v "reconciledCommands") ≡ some commands)
        × (length commands ≡ n)
  checked_result-facts v n commands h =
      unfold checked_result in
      let (_, h') =
        first_ok (require _ auth_failed) (require _ invalid_transition >> counted n _) h in
      let (bound, h'') = first_ok (require _ invalid_transition) (counted n _) h' in
      (
        eq-str_of_is_text (get v "installationId") installation
            (require-eq-ok _ invalid_transition bound),
        counted-some n (commands_of (get v "reconciledCommands")) commands h'',
        counted-length n (commands_of (get v "reconciledCommands")) commands h'',
      )

  finish-same :
      (v : Value) (n : ℕ) (time : String) (p : Journal × Result (Unit {0}))
      → (finish_reconcile node key installation v n time p).0.idempotency ≡ p.0.idempotency
  unfolding finish_reconcile record_maintenance
  finish-same v n time (k, throws x) = refl
  finish-same v n time (k, ok tt) =
      written-keeps (λ l. l.idempotency ≡ k.idempotency) (summary node key installation v n) (ok v)
        k
        (record_maintenance "installation" "RECONCILED" (summary node key installation v n) time k)
        refl refl

  settled-as :
      (commands : List Value) (j k k' : Journal) (id : String)
      → k'.idempotency ≡ k.idempotency
      → Same j k id ⊎ Settles commands j k id
      → Same j k' id ⊎ Settles commands j k' id
  settled-as commands j k k' id e (inl same) = inl (ap (lookup id) e ∙ same)
  settled-as commands j k k' id e (inr s) = inr record {
    entry = s.entry;
    stored = s.stored;
    pending = s.pending;
    named = s.named;
    response = s.response;
    after = ap (lookup id) e ∙ s.after;
  }

  abbrev Outcome : Option (List String → Result Value) → Journal → Journal → String → Type 0
  Outcome driver j j' id =
      Same j j' id
      ⊎ ((commands : List Value) × IsReported driver j commands × Settles commands j j' id)

  outcome_of :
      (driver : Option (List String → Result Value)) (j j' : Journal) (id : String)
      (commands : List Value)
      → IsReported driver j commands
      → Same j j' id ⊎ Settles commands j j' id
      → Outcome driver j j' id
  outcome_of driver j j' id commands r (inl same) = inl same
  outcome_of driver j j' id commands r (inr s) = inr (commands, r, s)

  result-outcome :
      (drive : List String → Result Value) (time : String) (j k : Journal) (r : Result Value)
      (id : String)
      → drive (unique [] (run_ids j.resources)) ≡ r
      → k.idempotency ≡ j.idempotency
      → pending_accepted k ≡ pending_accepted j
      → Outcome (some drive) j (reconcile_result node key installation time k r).0 id
  result-outcome drive time j k (throws x) id returned kept pending =
      unfold reconcile_result in inl (ap (lookup id) kept)
  result-outcome drive time j k (ok v) id returned kept pending =
      let n = length (pending_accepted k) in
      elim (Result-cases (checked_result node key installation v n)) [
        | inr (x, e) ↦
            rw (result_refused node key installation time k v x e) (inl (ap (lookup id) kept))
        | inl (commands, e) ↦
            let (bound, listed, many) = checked_result-facts v n commands e in
            let p = reconcile_commands node key installation (pending_accepted k) time commands k in
            let report : IsReported (some drive) j commands = record {
              drive = drive;
              driven = refl;
              report = v;
              returned = returned;
              same_installation = bound;
              reported = listed;
              as_many = many ∙ ap length pending;
            } in
            rw (result_checked node key installation time k v commands e) (
              outcome_of (some drive) j _ id commands report (
                settled-as commands j p.0 _ id (finish-same v n time p) (
                  from_start commands p.0 id kept (
                    commands-Settles node key installation (pending_accepted k) time commands k
                      id))))
      ]
    where
      from_start :
          (commands : List Value) (l : Journal) (id : String)
          → k.idempotency ≡ j.idempotency
          → Same k l id ⊎ Settles commands k l id
          → Same j l id ⊎ Settles commands j l id
      from_start commands l id kept (inl same) = inl (same ∙ ap (lookup id) kept)
      from_start commands l id kept (inr s) = inr record {
        entry = s.entry;
        stored = ap (lookup id) (sym kept) ∙ s.stored;
        pending = s.pending;
        named = s.named;
        response = s.response;
        after = s.after;
      }

  -- Whether it returns or throws, and wherever it stops, the reconciliation settles a command only if
  -- the driver's report names this installation, reports as many commands as are pending, and gives
  -- this command's key and digest a final result; the command was pending and has a response now, and
  -- all else of its entry is as it was. Every other entry is as it was. No counter or fence falls,
  -- every used nonce stays used, and every key stays bound to its command.
  pub reconcile-IsReported :
      (driver : Option (List String → Result Value)) (time : String) (j : Journal)
      → Extends j (reconcile node key installation driver time j).0
        × ((id : String)
            → Same j (reconcile node key installation driver time j).0 id
              ⊎ ((commands : List Value) × IsReported driver j commands
                  × Settles commands j (reconcile node key installation driver time j).0 id))
  reconcile-IsReported none time j = unfold reconcile in (Extends-refl j, λ id. inl refl)
  reconcile-IsReported (some drive) time j =
      unfold reconcile in
      (
        Steps-Extends (
            result-Steps node key installation time j _ (drive (unique [] (run_ids j.resources)))
              (next here (maintained "installation" "RECONCILING" _ time))),
        λ id.
            result-outcome drive time j _ (drive (unique [] (run_ids j.resources))) id refl
              (unfold record_maintenance in refl)
              (unfold pending_accepted record_maintenance in refl),
      )
