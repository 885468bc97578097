-- ===== src/Workflow/Tests.antt =====
-- Runs of packages/workflow/src/index.ts at concrete documents.
use repo_assessment_kit.Prelude.{
  suc, ◌+◌, ◌≡◌, refl, ◌≢◌, ◌↔◌, ℕ, true, false, none, some, List, [], ◌∷◌, map,
}
use repo_assessment_kit.Workflow.{
  RunState, draft, resolving_target, executing, validating, review_required, packaging, completed,
  codex, RunDocument, transition_run, create_draft_run, is_terminal, PhaseState, pending, running,
  succeeded, retryable_failure, PhaseDocument, PhaseKey, dynamic_assessment, discovery,
  target_snapshot, static_inventory, create_phases, skipped, can_transition_phase, transition_phase,
  can_transition_run,
}
use repo_assessment_kit.Workflow.Runs.{
  History, here, next, is_terminal_iff, History-row_version, History-terminal_at, completed-review,
}
use repo_assessment_kit.Workflow.Phases.{
  get_elem?, PhaseHistory, StartsReady, PhaseHistory-path, create_phases-chain,
}

abbrev first_draft : RunDocument
first_draft = record {
  run_id = "run_1";
  parent_run_id = none;
  project_slug = "portal";
  revision = 1;
  row_version = 0;
  state = draft;
  provider = codex;
  target_snapshot_id = none;
  created_at = "t0";
  updated_at = "t0";
  terminal_at = none;
  limitation_ids = [];
  package_id = none;
}

created : create_draft_run "run_1" "portal" codex "t0" none none ≡ first_draft
unfolding create_draft_run
created = refl

abbrev at : RunState → ℕ → RunDocument
at s n = record first_draft { state = s; row_version = n; updated_at = "t" }

abbrev finished : RunDocument
finished = record first_draft {
  state = completed;
  row_version = 7;
  updated_at = "t";
  terminal_at = some "t";
}

whole_run : History first_draft finished (
    completed ∷ packaging ∷ review_required ∷ validating ∷ executing ∷ RunState.ready
    ∷ resolving_target ∷ [])
unfolding transition_run can_transition_run
whole_run =
    next {run = at packaging 6}
      (next {run = at review_required 5}
        (next {run = at validating 4}
          (next {run = at executing 3}
            (next {run = at RunState.ready 2}
              (next {run = at resolving_target 1} (next here resolving_target "t" refl)
                RunState.ready "t" refl)
              executing "t" refl)
            validating "t" refl)
          review_required "t" refl)
        packaging "t" refl)
      completed "t" refl

refused : transition_run first_draft completed "t" ≡ none
unfolding transition_run can_transition_run
refused = refl

is_terminal_iff_example :
    (is_terminal executing ≡ true) ↔ ((to : RunState) → can_transition_run executing to ≡ false)
is_terminal_iff_example = is_terminal_iff executing

History-row_version_example :
    (finished.row_version ≡ 0 + 7)
    × (finished.run_id ≡ "run_1")
    × (finished.provider ≡ codex)
    × (finished.created_at ≡ "t0")
History-row_version_example = History-row_version whole_run

History-terminal_at_example : (finished.terminal_at ≢ none) ↔ (is_terminal finished.state ≡ true)
History-terminal_at_example = History-terminal_at refl refl whole_run

completed-review_example :
    (rest : List RunState) × (completed ∷ packaging ∷ review_required ∷ validating ∷ executing
        ∷ RunState.ready ∷ resolving_target ∷ []
      ≡ completed ∷ packaging ∷ review_required ∷ validating ∷ executing ∷ rest)
completed-review_example = completed-review refl whole_run refl

abbrev waiting_phase : PhaseDocument
waiting_phase = record {
  phase_id = "phs_1";
  run_id = "run_1";
  phase_key = dynamic_assessment;
  phase_revision = 1;
  state = pending;
  current_attempt_id = none;
  required = false;
  depends_on = discovery ∷ [];
  limitation_ids = [];
}

abbrev in_state : PhaseState → PhaseDocument
in_state s = record waiting_phase { state = s }

abbrev succeeded_path : List PhaseState
succeeded_path =
    succeeded ∷ running ∷ PhaseState.ready ∷ retryable_failure ∷ running ∷ PhaseState.ready ∷ []

-- A phase that fails once and succeeds when it is tried again.
retried : PhaseHistory false waiting_phase (in_state succeeded) succeeded_path
unfolding transition_phase can_transition_phase
retried =
    PhaseHistory.next {phase = in_state running}
      (PhaseHistory.next {phase = in_state PhaseState.ready}
        (PhaseHistory.next {phase = in_state retryable_failure}
          (PhaseHistory.next {phase = in_state running}
            (PhaseHistory.next {phase = in_state PhaseState.ready}
              (PhaseHistory.next PhaseHistory.here PhaseState.ready refl) running refl)
            retryable_failure refl)
          PhaseState.ready refl)
        running refl)
      succeeded refl

not_skipped : transition_phase (in_state PhaseState.ready) skipped false ≡ none
unfolding transition_phase can_transition_phase
not_skipped = refl

PhaseHistory-path_example :
    (in_state succeeded ≡ in_state succeeded)
    × (succeeded ≡ succeeded
        → (rest : List PhaseState) × (succeeded_path ≡ succeeded ∷ running ∷ rest)
          × StartsReady rest)
    × (succeeded ≡ skipped
        → (false ≡ true)
          × (rest : List PhaseState) × (succeeded_path ≡ skipped ∷ PhaseState.ready ∷ rest))
PhaseHistory-path_example = PhaseHistory-path refl retried

abbrev three_keys : List PhaseKey
three_keys = discovery ∷ target_snapshot ∷ static_inventory ∷ []

create_phases-chain_example :
    (map (λ p. p.phase_key) (create_phases "run_1" (λ n. "id") three_keys) ≡ three_keys)
    × ((first : PhaseDocument)
        → get_elem? (create_phases "run_1" (λ n. "id") three_keys) 0 ≡ some first
        → (first.state ≡ PhaseState.ready) × (first.depends_on ≡ []))
    × ((i : ℕ) (previous later : PhaseDocument)
        → get_elem? (create_phases "run_1" (λ n. "id") three_keys) i ≡ some previous
        → get_elem? (create_phases "run_1" (λ n. "id") three_keys) (suc i) ≡ some later
        → (later.state ≡ pending) × (later.depends_on ≡ previous.phase_key ∷ []))
create_phases-chain_example = create_phases-chain "run_1" (λ n. "id") three_keys
