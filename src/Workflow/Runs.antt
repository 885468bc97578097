-- ===== src/Workflow/Runs.antt =====
-- Histories of a run: what the transition table of packages/workflow/src/index.ts allows over any
-- sequence of accepted transitions.
use repo_assessment_kit.Prelude.{
  ◌+◌, ◌≡◌, refl, ◌∙◌, ap, ◌≢◌, ◌↔◌, inl, inr, String, true, false, none, some, List, [], ◌∷◌,
  arith, length, if◌then◌else◌, Bool-cases, Option-cases,
}
use repo_assessment_kit.Workflow.{
  RunState, draft, resolving_target, executing, pausing, paused, recoverable_failure, validating,
  review_required, packaging, completed, cancelling, can_transition_run, RunDocument, is_terminal,
  transition_run,
}

-- A history: each accepted transition with its time.
pub data History (start : RunDocument) : RunDocument → List RunState → Type 0 where
  here : History start start []
  next :
      {run after : RunDocument} {visited : List RunState}
      → History start run visited
      → (to : RunState) (now : String) → transition_run run to now ≡ some after
      → History start after (to ∷ visited)

terminal_refuses :
    (from to : RunState) → is_terminal from ≡ true → can_transition_run from to ≡ false
unfolding can_transition_run
terminal_refuses completed to h = refl
terminal_refuses RunState.cancelled to h = refl
terminal_refuses RunState.failed to h = refl
terminal_refuses _ to h = cc

-- A next state that leads towards `COMPLETED`, and `CANCELLED` once a run is being cancelled.
forward : RunState → RunState
forward draft = resolving_target
forward resolving_target = RunState.ready
forward RunState.ready = executing
forward executing = validating
forward RunState.waiting_input = executing
forward pausing = paused
forward paused = executing
forward recoverable_failure = executing
forward validating = review_required
forward review_required = packaging
forward packaging = completed
forward cancelling = RunState.cancelled
forward terminal = terminal

forward_allowed :
    (from : RunState) → is_terminal from ≡ false → can_transition_run from (forward from) ≡ true
unfolding can_transition_run forward
forward_allowed completed h = cc
forward_allowed RunState.cancelled h = cc
forward_allowed RunState.failed h = cc
forward_allowed _ h = refl

-- The states COMPLETED, CANCELLED and FAILED are exactly those from which no transition to any
-- state is allowed.
pub is_terminal_iff :
    (from : RunState)
    → (is_terminal from ≡ true) ↔ ((to : RunState) → can_transition_run from to ≡ false)
is_terminal_iff from = (
  λ h to. terminal_refuses from to h,
  λ h. elim (Bool-cases (is_terminal from)) [
    | inl yes_terminal ↦ yes_terminal
    | inr not_terminal ↦ cc (h (forward from), forward_allowed from not_terminal)
  ],
)

-- What an accepted transition has done.
record Moved (run : RunDocument) (to : RunState) (now : String) (after : RunDocument) : Type 0 where
  allowed : can_transition_run run.state to ≡ true
  state : after.state ≡ to
  version : after.row_version ≡ run.row_version + 1
  terminal : after.terminal_at ≡ (if is_terminal to then some now else run.terminal_at)
  run_id : after.run_id ≡ run.run_id
  provider : after.provider ≡ run.provider
  created_at : after.created_at ≡ run.created_at

transition_run-Moved :
    (run : RunDocument) (to : RunState) (now : String) (after : RunDocument)
    → transition_run run to now ≡ some after
    → Moved run to now after
unfolding transition_run
transition_run-Moved run to now after h = ground arith

-- After any history the row version has grown by the number of transitions, and the run keeps
-- its identifier, its provider and its creation time.
pub History-row_version :
    {run after : RunDocument} {visited : List RunState}
    → History run after visited
    → (after.row_version ≡ run.row_version + length visited)
      × (after.run_id ≡ run.run_id)
      × (after.provider ≡ run.provider)
      × (after.created_at ≡ run.created_at)
History-row_version here = (omega arith, refl, refl, refl)
History-row_version (next {run = mid} {after} h to now e) =
    let ih = History-row_version h in
    let m = transition_run-Moved mid to now after e in (omega arith, cc, cc, cc)

-- The run has a terminal time exactly when its state is terminal.
abbrev IsStamped : RunDocument → Type 0
IsStamped run = (run.terminal_at ≢ none) ↔ (is_terminal run.state ≡ true)

-- A transition that was accepted left a state that is not terminal.
Moved-live :
    {run after : RunDocument} {to : RunState} {now : String}
    → Moved run to now after
    → is_terminal run.state ≡ false
Moved-live {run} {to} m = elim (Bool-cases (is_terminal run.state)) [
  | inl ended ↦ cc (m.allowed, terminal_refuses run.state to ended)
  | inr live ↦ live
]

IsStamped-step :
    (run after : RunDocument) (to : RunState) (now : String)
    → Moved run to now after
    → IsStamped run
    → IsStamped after
IsStamped-step run after to now m (set, stamped) = elim (Bool-cases (is_terminal to)) [
  | inl ended ↦ (
    λ _. rw m.state ended,
    λ _ unset. cc (m.terminal, ap (λ b. if b then some now else run.terminal_at) ended),
  )
  | inr live ↦ (
    λ given. elim (Option-cases run.terminal_at) [
      | inl unset ↦
          absurd
            (given (m.terminal ∙ ap (λ b. if b then some now else run.terminal_at) live ∙ unset))
      | inr (t, e) ↦ cc (set (λ unset. cc), Moved-live m)
    ],
    λ ended. cc (ended, ap is_terminal m.state),
  )
]

-- In every history that starts from a run that is not terminal and has no terminal time, the run
-- has a terminal time exactly when its state is terminal.
pub History-terminal_at :
    {run after : RunDocument} {visited : List RunState}
    → is_terminal run.state ≡ false
    → run.terminal_at ≡ none
    → History run after visited
    → (after.terminal_at ≢ none) ↔ (is_terminal after.state ≡ true)
History-terminal_at live unset here = ((λ h. absurd (h unset)), λ h. cc)
History-terminal_at live unset (next {run = mid} {after} h to now e) =
    IsStamped-step mid after to now (transition_run-Moved mid to now after e)
      (History-terminal_at live unset h)

-- The states from which a transition leads to one of the last four.
before_completed : (from : RunState) → can_transition_run from completed ≡ true → from ≡ packaging
unfolding can_transition_run
before_completed packaging h = refl
before_completed _ h = cc

before_packaging :
    (from : RunState) → can_transition_run from packaging ≡ true → from ≡ review_required
unfolding can_transition_run
before_packaging review_required h = refl
before_packaging _ h = cc

before_review :
    (from : RunState) → can_transition_run from review_required ≡ true → from ≡ validating
unfolding can_transition_run
before_review validating h = refl
before_review _ h = cc

before_validating : (from : RunState) → can_transition_run from validating ≡ true → from ≡ executing
unfolding can_transition_run
before_validating executing h = refl
before_validating _ h = cc

-- The last step of a history into a state other than the first one's.
last_step :
    {run after : RunDocument} {visited : List RunState} (to : RunState)
    → History run after visited
    → after.state ≡ to
    → run.state ≢ to
    → (mid : RunDocument) × (rest : List RunState) × History run mid rest
      × (can_transition_run mid.state to ≡ true)
      × (visited ≡ to ∷ rest)
last_step to here e ne = absurd (ne e)
last_step to (next {run = mid} {after} {visited = rest} h into now s) e ne =
    let m = transition_run-Moved mid into now after s in (mid, rest, h, cc, cc)

-- Histories of a draft into each of the last states.
module _ {run : RunDocument} (start : run.state ≡ draft) where
  through_executing :
      {after : RunDocument} {visited : List RunState}
      → History run after visited
      → after.state ≡ executing
      → (rest : List RunState) × (visited ≡ executing ∷ rest)
  through_executing h e =
      let (_, rest, _, _, same) = last_step executing h e (λ p. cc) in (rest, same)

  through_validating :
      {after : RunDocument} {visited : List RunState}
      → History run after visited
      → after.state ≡ validating
      → (rest : List RunState) × (visited ≡ validating ∷ executing ∷ rest)
  through_validating h e =
      let (mid, _, before, allowed, same) = last_step validating h e (λ p. cc) in
      let (rest, earlier) = through_executing before (before_validating mid.state allowed) in
      (rest, same ∙ ap (λ r. validating ∷ r) earlier)

  through_review_required :
      {after : RunDocument} {visited : List RunState}
      → History run after visited
      → after.state ≡ review_required
      → (rest : List RunState) × (visited ≡ review_required ∷ validating ∷ executing ∷ rest)
  through_review_required h e =
      let (mid, _, before, allowed, same) = last_step review_required h e (λ p. cc) in
      let (rest, earlier) = through_validating before (before_review mid.state allowed) in
      (rest, same ∙ ap (λ r. review_required ∷ r) earlier)

  through_packaging :
      {after : RunDocument} {visited : List RunState}
      → History run after visited
      → after.state ≡ packaging
      → (rest : List RunState) × (visited
          ≡ packaging ∷ review_required ∷ validating ∷ executing ∷ rest)
  through_packaging h e =
      let (mid, _, before, allowed, same) = last_step packaging h e (λ p. cc) in
      let (rest, earlier) = through_review_required before (before_packaging mid.state allowed) in
      (rest, same ∙ ap (λ r. packaging ∷ r) earlier)

-- A run that was created as a draft and is completed has gone through the states EXECUTING,
-- VALIDATING, REVIEW_REQUIRED, PACKAGING and COMPLETED as its last five transitions, in this order:
-- no history skips the validation or the review. (The list of visited states has the last first.)
pub completed-review :
    {run after : RunDocument} {visited : List RunState}
    → run.state ≡ draft
    → History run after visited
    → after.state ≡ completed
    → (rest : List RunState) × (visited
        ≡ completed ∷ packaging ∷ review_required ∷ validating ∷ executing ∷ rest)
completed-review start h e =
    let (mid, _, before, allowed, same) = last_step completed h e (λ p. cc) in
    let (rest, earlier) = through_packaging start before (before_completed mid.state allowed) in
    (rest, same ∙ ap (λ r. completed ∷ r) earlier)
