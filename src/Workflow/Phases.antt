-- ===== src/Workflow/Phases.antt =====
-- The phases of a run: packages/workflow/src/index.ts, `createPhases` and `transitionPhase`.
use repo_assessment_kit.Prelude.{
  ℕ, zero, suc, ◌+◌, ◌-◌, eqb, false, ◌≡◌, ◌≢◌, refl, sym, ap, ◌∙◌, ◌⊎◌, inl, inr, String, Bool,
  true, some, Option, none, List, [], ◌∷◌, ◌++◌, map, arith,
}
use repo_assessment_kit.Workflow.{
  PhaseState, pending, running, succeeded, skipped, can_transition_phase, PhaseDocument,
  transition_phase, PhaseKey, key_at, create_phase, create_from, create_phases,
}

abbrev pub get_elem? {ℓ} : {A : Type ℓ} → List A → ℕ → Option A
get_elem? [] i = none
get_elem? (x ∷ xs) zero = some x
get_elem? (x ∷ xs) (suc i) = get_elem? xs i

-- Accepted transitions of one phase, all with the same answer to whether it is conditional; the last
-- state stands first.
pub data PhaseHistory (conditional : Bool) (start : PhaseDocument)
    : PhaseDocument → List PhaseState → Type 0 where
  here : PhaseHistory conditional start start []
  next :
      {phase after : PhaseDocument} {visited : List PhaseState}
      → PhaseHistory conditional start phase visited
      → (to : PhaseState) → transition_phase phase to conditional ≡ some after
      → PhaseHistory conditional start after (to ∷ visited)

record Moved (phase : PhaseDocument) (to : PhaseState) (conditional : Bool) (after : PhaseDocument)
    : Type 0 where
  allowed : can_transition_phase phase.state to ≡ true
  moved : after ≡ record phase { state = to }
  excused : to ≡ skipped → conditional ≡ true

transition_phase-Moved :
    (phase after : PhaseDocument) (to : PhaseState) (conditional : Bool)
    → transition_phase phase to conditional ≡ some after
    → Moved phase to conditional after
unfolding transition_phase
transition_phase-Moved phase after to conditional h = record {
  allowed = ground arith;
  moved = ground arith;
  excused = ground arith;
}

after_pending : (to : PhaseState) → can_transition_phase pending to ≡ true → to ≡ PhaseState.ready
unfolding can_transition_phase
after_pending PhaseState.ready h = refl
after_pending _ h = cc

before_succeeded : (from : PhaseState) → can_transition_phase from succeeded ≡ true → from ≡ running
unfolding can_transition_phase
before_succeeded running h = refl
before_succeeded _ h = cc

before_running : (from : PhaseState) → can_transition_phase from running ≡ true → from ≢ pending
unfolding can_transition_phase
before_running pending h e = cc
before_running _ h e = cc

before_skipped :
    (from : PhaseState) → can_transition_phase from skipped ≡ true → from ≡ PhaseState.ready
unfolding can_transition_phase
before_skipped PhaseState.ready h = refl
before_skipped _ h = cc

-- The first transition is the last of the list.
abbrev pub StartsReady : List PhaseState → Type 0
StartsReady visited = (later : List PhaseState) × (visited ≡ later ++ (PhaseState.ready ∷ []))

module _ {conditional : Bool} {start : PhaseDocument} (waiting : start.state ≡ pending) where
  first_ready :
      {after : PhaseDocument} {visited : List PhaseState}
      → PhaseHistory conditional start after visited
      → (after.state ≡ pending) × (visited ≡ []) ⊎ StartsReady visited
  first_ready here = inl (waiting, refl)
  first_ready (next {phase} {after} {visited} h to e) =
      let m = transition_phase-Moved phase after to conditional e in
      elim (first_ready h) [
        | inl (still, none_yet) ↦
            let into : to ≡ PhaseState.ready =
              after_pending to (ap (λ s. can_transition_phase s to) (sym still) ∙ m.allowed) in
            inr ([], rw (into, none_yet) refl)
        | inr (later, same) ↦ inr (to ∷ later, ap (λ v. to ∷ v) same)
      ]

  left_pending :
      {after : PhaseDocument} {visited : List PhaseState}
      → PhaseHistory conditional start after visited
      → after.state ≢ pending
      → StartsReady visited
  left_pending h left = elim (first_ready h) [
    | inl (still, _) ↦ absurd (left still)
    | inr starts ↦ starts
  ]

  last_step :
      {after : PhaseDocument} {visited : List PhaseState} (to : PhaseState)
      → PhaseHistory conditional start after visited
      → after.state ≡ to
      → to ≢ pending
      → (mid : PhaseDocument) × (rest : List PhaseState) × PhaseHistory conditional start mid rest
        × Moved mid to conditional after
        × (visited ≡ to ∷ rest)
  last_step to here e ne = absurd (ne (sym e ∙ waiting))
  last_step to (next {phase} {after} {visited} h into s) e ne =
      let m = transition_phase-Moved phase after into conditional s in
      let same : into ≡ to = sym (ap (λ p. p.state) m.moved) ∙ e in
      (phase, visited, h, rw (← same) m, ap (λ t. t ∷ visited) same)

kept :
    {conditional : Bool} {start after : PhaseDocument} {visited : List PhaseState}
    → PhaseHistory conditional start after visited
    → after ≡ record start { state = after.state }
kept here = refl
kept {start} (next {phase} {after} h to e) =
    let m = transition_phase-Moved phase after to _ e in
    let put : PhaseState → PhaseDocument → PhaseDocument = λ s p. record p { state = s } in
    m.moved ∙ ap (put to) (kept h) ∙ ap (λ s. put s start) (sym (ap (λ p. p.state) m.moved))

-- A phase that was created PENDING changes in its state alone, whatever transitions are accepted. If
-- it has SUCCEEDED, then its last transition but one was to RUNNING, and its first one, before
-- these two, to READY: none succeeds that has not been made ready and run. If it is SKIPPED, it was
-- READY until then, and the caller has said that the phase is conditional.
pub PhaseHistory-path :
    {conditional : Bool} {start after : PhaseDocument} {visited : List PhaseState}
    → start.state ≡ pending
    → PhaseHistory conditional start after visited
    → (after ≡ record start { state = after.state })
      × (after.state ≡ succeeded
          → (rest : List PhaseState) × (visited ≡ succeeded ∷ running ∷ rest) × StartsReady rest)
      × (after.state ≡ skipped
          → (conditional ≡ true)
            × (rest : List PhaseState) × (visited ≡ skipped ∷ PhaseState.ready ∷ rest))
PhaseHistory-path waiting h = (
  kept h,
  λ ended.
      let (mid, rest, before, m, same) = last_step waiting succeeded h ended (λ p. cc) in
      let run = before_succeeded mid.state m.allowed in
      let (mid', rest', before', m', same') = last_step waiting running before run (λ p. cc) in
      (
        rest',
        same ∙ ap (λ r. succeeded ∷ r) same',
        left_pending waiting before' (before_running mid'.state m'.allowed),
      ),
  λ ended.
      let (mid, rest, before, m, same) = last_step waiting skipped h ended (λ p. cc) in
      let set = before_skipped mid.state m.allowed in
      let (_, rest', _, _, same') = last_step waiting PhaseState.ready before set (λ p. cc) in
      (m.excused refl, rest', same ∙ ap (λ r. skipped ∷ r) same'),
)

module _ (run_id : String) (next_id : ℕ → String) where
  create_from-keys :
      (all : List PhaseKey) (index : ℕ) (keys : List PhaseKey)
      → map (λ p. p.phase_key) (create_from run_id next_id all index keys) ≡ keys
  unfolding create_from
  create_from-keys all index [] = refl
  create_from-keys all index (key ∷ keys) =
      ap (λ ks. key ∷ ks) (create_from-keys all (index + 1) keys)

key_at-get_elem? :
    (keys : List PhaseKey) (i : ℕ) {key : PhaseKey}
    → get_elem? keys i ≡ some key
    → key_at i keys ≡ key ∷ []
unfolding key_at
key_at-get_elem? [] i h = cc
key_at-get_elem? (k ∷ keys) zero h = ground arith
key_at-get_elem? (k ∷ keys) (suc i) h = key_at-get_elem? keys i h

module _ (run_id : String) (next_id : ℕ → String) where
  create_from-get_elem? :
      (all : List PhaseKey) (index : ℕ) (keys : List PhaseKey) (i : ℕ) {p : PhaseDocument}
      → get_elem? (create_from run_id next_id all index keys) i ≡ some p
      → (key : PhaseKey) × (get_elem? keys i ≡ some key)
        × (p ≡ create_phase run_id next_id all key (index + i))
  unfolding create_from
  create_from-get_elem? all index [] i h = cc
  create_from-get_elem? all index (key ∷ keys) zero h =
      let same : index + 0 ≡ index = omega arith in (key, refl, rw same (ground arith))
  create_from-get_elem? all index (key ∷ keys) (suc i) h =
      let (found, at, made) = create_from-get_elem? all (index + 1) keys i h in
      let same : index + suc i ≡ index + 1 + i = omega arith in (found, at, rw same made)

  create_phase-first :
      (all : List PhaseKey) (key : PhaseKey)
      → ((create_phase run_id next_id all key 0).state ≡ PhaseState.ready)
        × ((create_phase run_id next_id all key 0).depends_on ≡ [])
  unfolding create_phase
  create_phase-first all key = (refl, refl)

  create_phase-later :
      (all : List PhaseKey) (key : PhaseKey) (index i : ℕ)
      → index ≡ suc i
      → ((create_phase run_id next_id all key index).state ≡ pending)
        × ((create_phase run_id next_id all key index).depends_on ≡ key_at i all)
  unfolding create_phase
  create_phase-later all key index i e =
      let before : index - 1 ≡ i = omega arith in
      let positive : eqb index 0 ≡ false = ground arith in rw (before, positive) (refl, refl)

  create_phase-key :
      (all : List PhaseKey) (key : PhaseKey) (index : ℕ)
      → (create_phase run_id next_id all key index).phase_key ≡ key
  unfolding create_phase
  create_phase-key all key index = refl

  -- The phases that are created for a list of keys have those keys in that order. The first is READY
  -- and depends on none; every other one is PENDING and depends on exactly the phase that stands
  -- before it among those that are created.
  pub create_phases-chain :
      (keys : List PhaseKey)
      → (map (λ p. p.phase_key) (create_phases run_id next_id keys) ≡ keys)
        × ((first : PhaseDocument)
            → get_elem? (create_phases run_id next_id keys) 0 ≡ some first
            → (first.state ≡ PhaseState.ready) × (first.depends_on ≡ []))
        × ((i : ℕ) (previous later : PhaseDocument)
            → get_elem? (create_phases run_id next_id keys) i ≡ some previous
            → get_elem? (create_phases run_id next_id keys) (suc i) ≡ some later
            → (later.state ≡ pending) × (later.depends_on ≡ previous.phase_key ∷ []))
  unfolding create_phases
  create_phases-chain keys = (
    create_from-keys run_id next_id keys 0 keys,
    λ first here.
        let (key, at, made) = create_from-get_elem? keys 0 keys 0 here in
        rw made (create_phase-first keys key),
    λ i previous later before after.
        let (key, at, made) = create_from-get_elem? keys 0 keys i before in
        let (next_key, at', made') = create_from-get_elem? keys 0 keys (suc i) after in
        let (waits, depends) = create_phase-later keys next_key (0 + suc i) i (omega arith) in
        let named : previous.phase_key ≡ key =
          ap (λ p. p.phase_key) made ∙ create_phase-key keys key (0 + i) in
        (
          ap (λ p. p.state) made' ∙ waits,
          ap (λ p. p.depends_on) made'
              ∙ depends
              ∙ key_at-get_elem? keys i at
              ∙ ap (λ k. k ∷ []) (sym named),
        ),
  )
