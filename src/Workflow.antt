-- ===== src/Workflow.antt =====
-- packages/workflow/src/index.ts: the run and phase state machines, and the documents that they
-- create. `createBlockedCoverage` is left out; a thrown `WorkflowConflict` is `none`. The revision
-- numbers are naturals: they stay far below 2^53, where doubles stop counting exactly.
pub mod Runs
pub mod Phases
pub mod Tests
use Prim.Native.String
use mathlib.Core.Logic.{ite}
use repo_assessment_kit.Prelude.{
  ℕ, zero, suc, ◌+◌, ◌-◌, String, Bool, true, false, not, ◌&&◌, ◌||◌, Option, none, some, List, [],
  ◌∷◌, if◌then◌else◌, eqb,
}

pub data RunState : Type 0 where
  draft resolving_target ready executing waiting_input pausing paused : RunState
  recoverable_failure validating review_required packaging completed : RunState
  cancelling cancelled failed : RunState

pub RunState-discrete : Discrete RunState
RunState-discrete = hlevel

pub data PhaseState : Type 0 where
  pending ready running waiting_input retryable_failure : PhaseState
  succeeded failed skipped cancelled : PhaseState

pub PhaseState-discrete : Discrete PhaseState
PhaseState-discrete = hlevel

-- `Array.prototype.includes`, over a type with decidable equality.
pub has : {A : Type 0} → Discrete A → List A → A → Bool
has same [] a = false
has same (x ∷ xs) a = ite (same x a) true (has same xs a)

unfoldable pub transitions : RunState → List RunState
transitions draft = resolving_target ∷ []
transitions resolving_target = RunState.ready ∷ recoverable_failure ∷ cancelling ∷ []
transitions RunState.ready = executing ∷ cancelling ∷ []
transitions executing =
    RunState.waiting_input ∷ pausing ∷ validating ∷ recoverable_failure ∷ RunState.failed
    ∷ cancelling ∷ []
transitions RunState.waiting_input = executing ∷ pausing ∷ RunState.failed ∷ cancelling ∷ []
transitions pausing = paused ∷ recoverable_failure ∷ cancelling ∷ []
transitions paused = executing ∷ cancelling ∷ []
transitions recoverable_failure = RunState.ready ∷ executing ∷ RunState.failed ∷ cancelling ∷ []
transitions validating = review_required ∷ recoverable_failure ∷ RunState.failed ∷ cancelling ∷ []
transitions review_required = packaging ∷ executing ∷ RunState.failed ∷ cancelling ∷ []
transitions packaging = completed ∷ recoverable_failure ∷ RunState.failed ∷ cancelling ∷ []
transitions cancelling = RunState.cancelled ∷ []
transitions completed = []
transitions RunState.cancelled = []
transitions RunState.failed = []

unfoldable pub phase_transitions : PhaseState → List PhaseState
phase_transitions pending = PhaseState.ready ∷ []
phase_transitions PhaseState.ready = running ∷ skipped ∷ PhaseState.cancelled ∷ []
phase_transitions running =
    PhaseState.waiting_input ∷ retryable_failure ∷ succeeded ∷ PhaseState.failed
    ∷ PhaseState.cancelled ∷ []
phase_transitions PhaseState.waiting_input = running ∷ PhaseState.cancelled ∷ []
phase_transitions retryable_failure =
    PhaseState.ready ∷ PhaseState.failed ∷ PhaseState.cancelled ∷ []
phase_transitions succeeded = []
phase_transitions PhaseState.failed = []
phase_transitions skipped = []
phase_transitions PhaseState.cancelled = []

pub can_transition_run : RunState → RunState → Bool
unfolding transitions has RunState-discrete
can_transition_run from to = has RunState-discrete (transitions from) to

pub data Provider : Type 0 where
  codex claude_code : Provider

pub record RunDocument : Type 0 where
  pub run_id : String
  pub parent_run_id : Option String
  pub project_slug : String
  pub revision : ℕ
  pub row_version : ℕ
  pub state : RunState
  pub provider : Provider
  pub target_snapshot_id : Option String
  pub created_at : String
  pub updated_at : String
  pub terminal_at : Option String
  pub limitation_ids : List String
  pub package_id : Option String

-- `to === "COMPLETED" || to === "CANCELLED" || to === "FAILED"`.
abbrev pub is_terminal : RunState → Bool
is_terminal completed = true
is_terminal RunState.cancelled = true
is_terminal RunState.failed = true
is_terminal _ = false

pub transition_run : RunDocument → RunState → String → Option RunDocument
transition_run run to now =
    if can_transition_run run.state to
    then some (record run {
      state = to;
      row_version = run.row_version + 1;
      updated_at = now;
      terminal_at = if is_terminal to then some now else run.terminal_at;
    })
    else none

pub data PhaseKey : Type 0 where
  discovery target_snapshot static_inventory static_security_quality : PhaseKey
  runtime_capability dynamic_assessment product_code_traceability : PhaseKey
  decision_synthesis independent_security_review independent_decision_review : PhaseKey
  deterministic_validation technical_human_review lay_human_review package_phase : PhaseKey

abbrev pub phase_keys : List PhaseKey
phase_keys =
    discovery ∷ target_snapshot ∷ static_inventory ∷ static_security_quality ∷ runtime_capability
    ∷ dynamic_assessment ∷ product_code_traceability ∷ decision_synthesis
    ∷ independent_security_review ∷ independent_decision_review ∷ deterministic_validation
    ∷ technical_human_review ∷ lay_human_review ∷ package_phase ∷ []

pub record PhaseDocument : Type 0 where
  pub phase_id : String
  pub run_id : String
  pub phase_key : PhaseKey
  pub phase_revision : ℕ
  pub state : PhaseState
  pub current_attempt_id : Option String
  pub required : Bool
  pub depends_on : List PhaseKey
  pub limitation_ids : List String

pub can_transition_phase : PhaseState → PhaseState → Bool
unfolding phase_transitions has PhaseState-discrete
can_transition_phase from to = has PhaseState-discrete (phase_transitions from) to

abbrev pub is_skipped : PhaseState → Bool
is_skipped skipped = true
is_skipped _ = false

pub transition_phase : PhaseDocument → PhaseState → Bool → Option PhaseDocument
transition_phase phase to conditional =
    if not (can_transition_phase phase.state to) || (is_skipped to && not conditional)
    then none
    else some (record phase { state = to })

abbrev is_required : PhaseKey → Bool
is_required dynamic_assessment = false
is_required _ = true

-- `phaseKeys[index - 1]`, in a list. The callback is given no index that is out of range.
unfoldable pub key_at : ℕ → List PhaseKey → List PhaseKey
key_at index [] = []
key_at zero (key ∷ keys) = key ∷ []
key_at (suc index) (key ∷ keys) = key_at index keys

-- The identifiers come from `next_id`, whose n-th call gives `next_id n`; `all` is `phaseKeys`.
module _ (run_id : String) (next_id : ℕ → String) (all : List PhaseKey) where
  -- The callback of `phaseKeys.map`.
  unfoldable pub create_phase : PhaseKey → ℕ → PhaseDocument
  unfolding key_at
  create_phase key index = record {
    phase_id = String.◌++◌ "phs_" (next_id index);
    run_id = run_id;
    phase_key = key;
    phase_revision = 1;
    state = if eqb index 0 then PhaseState.ready else pending;
    current_attempt_id = none;
    required = is_required key;
    depends_on = if eqb index 0 then [] else key_at (index - 1) all;
    limitation_ids = [];
  }

  -- `map`, from an index on.
  unfoldable pub create_from : ℕ → List PhaseKey → List PhaseDocument
  unfolding create_phase
  create_from index [] = []
  create_from index (key ∷ keys) = create_phase key index ∷ create_from (index + 1) keys

pub create_phases : String → (ℕ → String) → List PhaseKey → List PhaseDocument
unfolding create_from
create_phases run_id next_id keys = create_from run_id next_id keys 0 keys

pub create_draft_run : String → String → Provider → String → Option String → Option ℕ → RunDocument
create_draft_run run_id project_slug provider now parent_run_id revision = record {
  run_id = run_id;
  parent_run_id = parent_run_id;
  project_slug = project_slug;
  revision = elim revision [ none ↦ 1 | some r ↦ r ];
  row_version = 0;
  state = draft;
  provider = provider;
  target_snapshot_id = none;
  created_at = now;
  updated_at = now;
  terminal_at = none;
  limitation_ids = [];
  package_id = none;
}
