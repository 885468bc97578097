-- ===== src/Evidence/Admit.antt =====
-- `admitTextEvidence` and `assertSafePublicEvidence` of packages/evidence/src/index.ts. All texts are
-- lists of UTF-16 code units. SHA-256 as hexadecimal digits, `Buffer.byteLength` and `JSON.stringify` are
-- arguments.
use mathlib.Core.Path.{subst}
use repo_assessment_kit.Prelude.{
  ℕ, ◌≡◌, ◌≢◌, refl, String, Bool, true, false, not, ◌↔◌, drop, Option, none, some, List, [], ◌∷◌,
  ◌++◌, any, arith,
}
use repo_assessment_kit.Prelude.Result.{
  Result, ok, thrown, require, ◌>>=◌, ◌>>◌, first_ok, bound_ok,
}
use repo_assessment_kit.Protocol.Grammar.{codes}
use repo_assessment_kit.Evidence.{
  RedactionMatch, Sensitivity, RedactionState, SanitizedEvidence, secret_rules, host_path_rules,
  slice, redaction_of, ordered, sanitize_evidence_text,
}
use repo_assessment_kit.Evidence.Paths.{normalize_repository_path, normalize-below}

pub data StorageState : Type 0 where
  quarantined admitted redacted deleted : StorageState

pub record EvidenceBlob : Type 0 where
  pub blob_id : List ℕ
  pub run_id : List ℕ
  pub sha256 : List ℕ
  pub byte_length : ℕ
  pub media_type : List ℕ
  pub storage_rel_path : List ℕ
  pub storage_state : StorageState
  pub created_at : List ℕ

pub record SourceLocator : Type 0 where
  pub repo_rel_path : List ℕ
  pub start_line : Option ℕ
  pub end_line : Option ℕ

-- The members that are the same for every piece that is admitted are left out: it is unreviewed, and
-- linked to nothing.
pub record EvidenceOccurrence : Type 0 where
  pub evidence_id : List ℕ
  pub run_id : List ℕ
  pub blob_id : List ℕ
  pub evidence_type : List ℕ
  pub title : List ℕ
  pub snapshot_id : List ℕ
  pub activity_id : List ℕ
  pub captured_at : List ℕ
  pub source_locator : SourceLocator
  pub package_rel_path : List ℕ
  pub sensitivity : Sensitivity
  pub redaction_state : RedactionState
  pub collection_limitations : List (List ℕ)

pub record AdmitTextEvidenceInput : Type 0 where
  pub run_id : List ℕ
  pub snapshot_id : List ℕ
  pub activity_id : List ℕ
  pub repo_rel_path : List ℕ
  pub evidence_type : List ℕ
  pub title : List ℕ
  pub text : List ℕ
  pub captured_at : List ℕ
  pub media_type : Option (List ℕ)
  pub start_line : Option ℕ
  pub end_line : Option ℕ
  pub occurrence_key : Option (List ℕ)
  pub collection_limitations : Option (List (List ℕ))

pub record AdmittedTextEvidence : Type 0 where
  pub blob : EvidenceBlob
  pub occurrence : EvidenceOccurrence
  pub safe_text : List ℕ
  pub redactions : List RedactionMatch

-- What the runtime provides. `stringify` prints `{ blob, occurrence, safeText }`.
pub record Runtime : Type 0 where
  pub match_all : String → List ℕ → List (ℕ × ℕ)
  pub sha256_hex : List ℕ → List ℕ
  pub byte_length : List ℕ → ℕ
  pub decimal : ℕ → List ℕ
  pub stringify : EvidenceBlob → EvidenceOccurrence → List ℕ → List ℕ

abbrev default_to {ℓ} : {A : Type ℓ} → Option A → A → A
default_to none x = x
default_to (some y) x = y

-- `expression.test(text)`, with `lastIndex` at 0.
unfoldable pub finds : (String → List ℕ → List (ℕ × ℕ)) → List ℕ → String → Bool
finds match_all text rule = elim (match_all rule text) [ [] ↦ false | m ∷ ms ↦ true ]

-- Parts with a zero character between them.
zero_joined : List (List ℕ) → List ℕ
zero_joined [] = []
zero_joined (part ∷ []) = part
zero_joined (part ∷ next ∷ parts) = part ++ 0 ∷ zero_joined (next ∷ parts)

unfoldable pub storage_state_of : RedactionState → StorageState
storage_state_of RedactionState.redacted = redacted
storage_state_of RedactionState.none_required = admitted

ok-injective {ℓ} : {A : Type ℓ} (x y : A) → ok x ≡ ok y → x ≡ y
ok-injective x y h = cc

module _ (node : Runtime) where
  hash : List ℕ → List ℕ
  hash value = codes "sha256:" ++ node.sha256_hex value

  contract_id : String → List ℕ → List ℕ
  unfolding slice
  contract_id prefix key =
      let hex = node.sha256_hex key in
      codes prefix
      ++ (b'_'
          ∷ (slice 0 8 hex
              ++ (b'-'
                  ∷ (slice 8 12 hex
                      ++ (codes "-7"
                          ++ (slice 13 16 hex
                              ++ (codes "-a" ++ (slice 17 20 hex ++ b'-' ∷ slice 20 32 hex))))))))

  -- The argument is the text, or what `JSON.stringify` gives for any other value.
  unfoldable pub contains_absolute_host_path : List ℕ → Bool
  unfolding finds
  contains_absolute_host_path serialized = any (finds node.match_all serialized) host_path_rules

  unfoldable pub assert_safe_public_evidence : List ℕ → Result (Unit {0})
  unfolding contains_absolute_host_path
  assert_safe_public_evidence serialized = do
    require (not (contains_absolute_host_path serialized)) thrown
    require (not (any (finds node.match_all serialized) secret_rules)) thrown

  unfoldable pub occurrence_key : AdmitTextEvidenceInput → List ℕ → List ℕ → List ℕ
  unfolding zero_joined
  occurrence_key input path digest = default_to input.occurrence_key (
      zero_joined (
        input.run_id
        ∷ input.snapshot_id
        ∷ input.activity_id
        ∷ path
        ∷ elim input.start_line [ none ↦ [] | some line ↦ node.decimal line ]
        ∷ input.evidence_type
        ∷ digest
        ∷ []))

  unfoldable pub blob_of : AdmitTextEvidenceInput → SanitizedEvidence → EvidenceBlob
  unfolding hash contract_id zero_joined slice storage_state_of
  blob_of input sanitized =
      let digest = hash sanitized.text in
      record {
        blob_id = contract_id "blb" (zero_joined (input.run_id ∷ digest ∷ []));
        run_id = input.run_id;
        sha256 = digest;
        byte_length = node.byte_length sanitized.text;
        media_type = default_to input.media_type (codes "text/plain; charset=utf-8");
        storage_rel_path = codes "objects/sha256/" ++ (slice 7 9 digest ++ b'/' ∷ drop 7 digest);
        storage_state = storage_state_of sanitized.redaction_state;
        created_at = input.captured_at;
      }

  unfoldable pub occurrence_of :
      AdmitTextEvidenceInput → List ℕ → SanitizedEvidence → EvidenceOccurrence
  unfolding hash contract_id occurrence_key blob_of
  occurrence_of input path sanitized =
      let evidence_id = contract_id "evd" (occurrence_key input path (hash sanitized.text)) in
      record {
        evidence_id = evidence_id;
        run_id = input.run_id;
        blob_id = (blob_of input sanitized).blob_id;
        evidence_type = input.evidence_type;
        title = (sanitize_evidence_text node.match_all input.title).text;
        snapshot_id = input.snapshot_id;
        activity_id = input.activity_id;
        captured_at = input.captured_at;
        source_locator = record {
          repo_rel_path = path;
          start_line = input.start_line;
          end_line = input.end_line;
        };
        package_rel_path = codes "evidence/" ++ (evidence_id ++ codes ".txt");
        sensitivity = sanitized.sensitivity;
        redaction_state = sanitized.redaction_state;
        collection_limitations = default_to input.collection_limitations [];
      }

  unfoldable pub admit_text_evidence : AdmitTextEvidenceInput → Result AdmittedTextEvidence
  unfolding assert_safe_public_evidence blob_of occurrence_of
  admit_text_evidence input = do
    path ← normalize_repository_path input.repo_rel_path
    let sanitized = sanitize_evidence_text node.match_all input.text
    let blob = blob_of input sanitized
    let occurrence = occurrence_of input path sanitized
    assert_safe_public_evidence (node.stringify blob occurrence sanitized.text)
    ok (record {
      blob = blob;
      occurrence = occurrence;
      safe_text = sanitized.text;
      redactions = sanitized.matches;
    })

  -- Nothing that a rule finds is left in the text.
  abbrev pub IsClean : List ℕ → Type 0
  IsClean text =
      (any (finds node.match_all text) host_path_rules ≡ false)
      × (any (finds node.match_all text) secret_rules ≡ false)

  assert_safe-IsClean :
      (text : List ℕ) {u : Unit {0}} → assert_safe_public_evidence text ≡ ok u → IsClean text
  unfolding assert_safe_public_evidence contains_absolute_host_path
  assert_safe-IsClean text h = ground arith

  abbrev pub printed : AdmittedTextEvidence → List ℕ
  printed e = node.stringify e.blob e.occurrence e.safe_text

  storage_state-redacted :
      (ms : List RedactionMatch) → (storage_state_of (redaction_of ms) ≡ redacted) ↔ (ms ≢ [])
  unfolding storage_state_of redaction_of
  storage_state-redacted [] = (λ h. absurd (ground arith), λ h. absurd (h refl))
  storage_state-redacted (m ∷ ms) = (λ _ e. absurd (ground arith), λ _. refl)

  -- In the printed form of what is admitted no rule finds a host path or a secret. The text that is
  -- kept is the sanitized one, the path is the one that was given, and the blob is stored as redacted
  -- exactly if something was redacted.
  pub admit_text_evidence-IsClean :
      (input : AdmitTextEvidenceInput) (e : AdmittedTextEvidence)
      → admit_text_evidence input ≡ ok e
      → IsClean (printed e)
        × (e.safe_text ≡ (sanitize_evidence_text node.match_all input.text).text)
        × (e.occurrence.source_locator.repo_rel_path ≡ input.repo_rel_path)
        × ((e.blob.storage_state ≡ redacted) ↔ (e.redactions ≢ []))
  unfolding admit_text_evidence
  admit_text_evidence-IsClean input e h =
      let (path, normal, h') = bound_ok (normalize_repository_path input.repo_rel_path) _ h in
      let (safe, returned) = first_ok (assert_safe_public_evidence _) (ok _) h' in
      let (same, _) = normalize-below input.repo_rel_path path normal in
      subst
        (λ e.
          IsClean (printed e)
          × (e.safe_text ≡ (sanitize_evidence_text node.match_all input.text).text)
          × (e.occurrence.source_locator.repo_rel_path ≡ input.repo_rel_path)
          × ((e.blob.storage_state ≡ redacted) ↔ (e.redactions ≢ [])))
        (ok-injective _ e returned)
        (
          assert_safe-IsClean _ safe,
          refl,
          unfold occurrence_of in same,
          unfold blob_of sanitize_evidence_text in
              storage_state-redacted (ordered node.match_all input.text),
        )
