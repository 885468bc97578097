-- ===== src/Service/Effects.antt =====
-- What `handle` of scripts/host-helper-service.mjs does to the journal, and how often it calls a
-- driver.
use repo_assessment_kit.Prelude.{
  ℕ, ◌≡◌, refl, ◌∙◌, String, Bool, true, false, Option, none, some, List, [], ◌∷◌, if◌then◌else◌,
  inl, inr,
}
use repo_assessment_kit.Prelude.Result.{Result, ok, throws, ◌>>=◌, ◌>>◌, first_ok, Result-cases}
use repo_assessment_kit.Json.{Value}
use repo_assessment_kit.Journal.{Request, Journal, Admission, fresh, replayed, admit, complete}
use repo_assessment_kit.Journal.Growth.{Steps, here, next, admitted, completed, maintained}
use repo_assessment_kit.Protocol.Grammar.{Platform}
use repo_assessment_kit.Protocol.Requests.{sign_host_response}
use repo_assessment_kit.Service.{
  rejection, State, Drive, request_of, checked, record_phases, answer, kept, rejected, deliver,
  driven_state, execute, proceed, attempt, settle_rejected, reject, caught, handle,
}

Steps-trans : {j k l : Journal} → Steps j k → Steps k l → Steps j l
Steps-trans first here = first
Steps-trans first (next more step) = next (Steps-trans first more) step

-- What a call may do: it runs operations of the journal, and it calls a driver at most once, right
-- after it has admitted the request as a new command.
pub data Did (r : Request) (s s' : State) : Type 0 where
  quiet : Steps s.journal s'.journal → s'.driven ≡ s.driven → Did r s s'
  drove :
      (k : Journal)
      → admit r s.journal ≡ ok (fresh, k)
      → Steps k s'.journal
      → s'.driven ≡ r.idempotency_key ∷ s.driven
      → Did r s s'

Did-later :
    (r : Request) (s t u : State)
    → Did r s t
    → Steps t.journal u.journal
    → u.driven ≡ t.driven
    → Did r s u
Did-later r s t u (quiet steps same) more same' = quiet (Steps-trans steps more) (same' ∙ same)
Did-later r s t u (drove k a steps same) more same' =
    drove k a (Steps-trans steps more) (same' ∙ same)

abbrev Still : State → State → Type 0
Still s t = Steps s.journal t.journal × (t.driven ≡ s.driven)

either_branch : (P : State → Type 0) (b : Bool) {s t : State} → P s → P t → P (if b then s else t)
either_branch P true x y = x
either_branch P false x y = y

either_journal :
    (P : Journal → Type 0) (b : Bool) {j k : Journal} → P j → P k → P (if b then j else k)
either_journal P true x y = x
either_journal P false x y = y

kept-Still :
    (r : Request) (response : Value) (s : State) → Still s (kept s (complete r response s.journal))
unfolding kept
kept-Still r response s = elim (Result-cases (complete r response s.journal)) [
  | inr (x, failed) ↦ rw failed (here, refl)
  | inl (j, done) ↦ rw done (next here (completed r response done), refl)
]

module _ (node : Platform) (key : List ℕ) (installation : String)
    (validate_fixed_operation : Value → Value → Result (Unit {0})) (frame : Value)
    (time : String) where
  record_phases-Steps :
      (phases : List String) (j k : Journal)
      → Steps j k
      → Steps j (record_phases node key installation validate_fixed_operation frame time phases k)
  unfolding record_phases
  record_phases-Steps [] j k steps = steps
  record_phases-Steps (phase ∷ phases) j k steps =
      record_phases-Steps phases j _ (next steps (maintained _ phase _ time))

  driven_state-Steps :
      (drive : Drive) (s : State)
      → Steps s.journal
          (driven_state node key installation validate_fixed_operation frame time drive s).journal
  unfolding driven_state
  driven_state-Steps drive s =
      either_journal (Steps s.journal) _ (record_phases-Steps drive.phases s.journal s.journal here)
        here

  driven_state-driven :
      (drive : Drive) (s : State)
      → (driven_state node key installation validate_fixed_operation frame time drive s).driven
        ≡ (request_of node frame).idempotency_key ∷ s.driven
  unfolding driven_state request_of
  driven_state-driven drive s = refl

  deliver-Still :
      (s : State) (answered : Result Value)
      → Still s (deliver node key installation validate_fixed_operation frame s answered).0
  unfolding deliver
  deliver-Still s (throws x) = (here, refl)
  deliver-Still s (ok response) = kept-Still (request_of node frame) response s

  rejected-Still :
      (s : State) (signed : Result Value)
      → Still s (rejected node key installation validate_fixed_operation frame s signed).0
  unfolding rejected settle_rejected
  rejected-Still s (throws x) = (here, refl)
  rejected-Still s (ok response) =
      either_branch (Still s) _ (kept-Still (request_of node frame) response s) (here, refl)

  proceed-Did :
      (driver : Option Drive) (s : State) (a : Result (Admission × Journal))
      → ((b : Admission) (j : Journal)
          → a ≡ ok (b, j)
          → admit (request_of node frame) s.journal ≡ ok (b, j))
      → Did
          (request_of node frame)
          s
          (proceed node key installation validate_fixed_operation frame time driver s a).0
  unfolding proceed execute
  proceed-Did driver s (throws x) from = quiet here refl
  proceed-Did none s (ok (fresh, j)) from =
      quiet (next here (admitted (request_of node frame) fresh (from fresh j refl))) refl
  proceed-Did (some drive) s (ok (fresh, j)) from =
      let t =
        driven_state node key installation validate_fixed_operation frame time drive
          (record s { journal = j }) in
      let (more, same) =
        deliver-Still t
          (drive.outcome >>= answer node key installation validate_fixed_operation frame time) in
      drove j (from fresh j refl)
        (Steps-trans (driven_state-Steps drive (record s { journal = j })) more)
        (same ∙ driven_state-driven drive (record s { journal = j }))
  proceed-Did driver s (ok (replayed response, j)) from =
      quiet
        (next here
          (admitted (request_of node frame) (replayed response) (from (replayed response) j refl)))
        refl

  checked-admitted :
      (now : ℕ) (s : State) (b : Admission) (j : Journal)
      → (checked node key installation validate_fixed_operation frame now
          >> admit (request_of node frame) s.journal)
        ≡ ok (b, j)
      → admit (request_of node frame) s.journal ≡ ok (b, j)
  checked-admitted now s b j h =
      (first_ok (checked node key installation validate_fixed_operation frame now) _ h).1

  caught-Did :
      (s : State) (a : State × Result Value)
      → Did (request_of node frame) s a.0
      → Did
          (request_of node frame)
          s
          (caught node key installation validate_fixed_operation frame time a).0
  unfolding caught reject
  caught-Did s (t, ok response) did = did
  caught-Did s (t, throws x) did =
      let (more, same) = rejected-Still t (sign_host_response node (rejection frame x time) key) in
      Did-later (request_of node frame) s t _ did more same

  pub handle-Did :
      (now : ℕ) (driver : Option Drive) (s : State)
      → Did
          (request_of node frame)
          s
          (handle node key installation validate_fixed_operation frame now time driver s).0
  unfolding handle attempt
  handle-Did now driver s = caught-Did s _ (proceed-Did driver s _ (checked-admitted now s))
