-- ===== src/Service/Once.antt =====
-- A driver of the host helper is called at most once for an idempotency key, whatever frames
-- scripts/host-helper-service.mjs handles, one after the other.
use repo_assessment_kit.Prelude.{ℕ, ◌≡◌, ap, ◌≢◌, String, Option, none, some, List, [], ◌∷◌, All}
use repo_assessment_kit.Prelude.Dict.{lookup, lookup-insert_self}
use repo_assessment_kit.Prelude.Result.{Result}
use repo_assessment_kit.Json.{Value}
use repo_assessment_kit.Journal.{Request, Entry, Journal, fresh, accepted_entry}
use repo_assessment_kit.Journal.Admit.{admit-Fresh}
use repo_assessment_kit.Journal.Growth.{Extends, admitted, Step-Extends, Steps-Extends}
use repo_assessment_kit.Protocol.Grammar.{Platform}
use repo_assessment_kit.Service.{State, Drive, request_of, handle}
use repo_assessment_kit.Service.Effects.{Did, quiet, drove, handle-Did}

-- No text stands twice in a list.
abbrev pub Distinct : List String → Type 0
Distinct [] = Unit
Distinct (k ∷ ks) = All (λ other. other ≢ k) ks × Distinct ks

-- The key has an entry in the journal.
abbrev HasEntry : Journal → String → Type 0
HasEntry j k = (e : Entry) × (lookup k j.idempotency ≡ some e)

record IsSound (s : State) : Type 0 where
  once : Distinct s.driven
  recorded : All (HasEntry s.journal) s.driven

HasEntry-Extends : (j k : Journal) → Extends j k → (a : String) → HasEntry j a → HasEntry k a
HasEntry-Extends j k x a (e, h) = let (e', h', same) = x.bindings a e h in (e', h')

All-HasEntry :
    (j k : Journal)
    → Extends j k
    → (names : List String) → All (HasEntry j) names
    → All (HasEntry k) names
All-HasEntry j k x [] all = all
All-HasEntry j k x (a ∷ names) (h, all) = (HasEntry-Extends j k x a h, All-HasEntry j k x names all)

-- A key without an entry differs from all that have one.
All-other :
    (j : Journal) (k : String)
    → lookup k j.idempotency ≡ none
    → (names : List String) → All (HasEntry j) names
    → All (λ other. other ≢ k) names
All-other j k absent [] all = tt
All-other j k absent (a ∷ names) ((e, h), all) =
    (λ same. cc (ap (λ i. lookup i j.idempotency) same), All-other j k absent names all)

Did-IsSound : (r : Request) (s t : State) → Did r s t → IsSound s → IsSound t
Did-IsSound r s t (quiet steps same) sound = record {
  once = rw same sound.once;
  recorded =
      rw same (All-HasEntry s.journal t.journal (Steps-Extends steps) s.driven sound.recorded);
}
Did-IsSound r s t (drove k a steps same) sound =
    let f = admit-Fresh r s.journal k a in
    let grown = Steps-Extends steps in
    let entered : lookup r.idempotency_key k.idempotency ≡ some (accepted_entry r) =
      rw f.after (lookup-insert_self r.idempotency_key (accepted_entry r) s.journal.idempotency) in
    let started = Step-Extends (admitted r fresh a) in
    record {
      once =
          rw same
            (All-other s.journal r.idempotency_key f.new_key s.driven sound.recorded, sound.once);
      recorded = rw same (
        HasEntry-Extends k t.journal grown r.idempotency_key (accepted_entry r, entered),
        All-HasEntry k t.journal grown s.driven
            (All-HasEntry s.journal k started s.driven sound.recorded),
      );
    }

module _ (node : Platform) (key : List ℕ) (installation : String)
    (validate_fixed_operation : Value → Value → Result (Unit {0})) where
  -- The states that the helper reaches from a journal by handling frames one after the other, each
  -- with its own clock and with any behaviour of the driver.
  pub data Served (j : Journal) : State → Type 0 where
    started : Served j (record { journal = j; driven = [] })
    handled :
        {s : State}
        → Served j s
        → (frame : Value) (now : ℕ) (time : String) (driver : Option Drive)
        → Served j (handle node key installation validate_fixed_operation frame now time driver s).0

  Served-IsSound : (j : Journal) (s : State) → Served j s → IsSound s
  Served-IsSound j s started = record { once = tt; recorded = tt }
  Served-IsSound j s (handled {s = before} served frame now time driver) =
      Did-IsSound (request_of node frame) before s
        (handle-Did node key installation validate_fixed_operation frame time now driver before)
        (Served-IsSound j before served)

  -- Whatever frames the helper handles, one after the other, replayed, expired and forged ones
  -- included, from any journal on and whatever the drivers do: no driver is called twice for the
  -- same idempotency key.
  pub driven_once : (j : Journal) (s : State) → Served j s → Distinct s.driven
  driven_once j s served = (Served-IsSound j s served).once
