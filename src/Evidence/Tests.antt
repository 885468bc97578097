-- ===== src/Evidence/Tests.antt =====
-- The theorems on evidence at concrete inputs. In `/tmp/password: abcdef` the rule for host paths matches
-- `/tmp/password:` and the rule for credentials matches `password: abcdef`.
use repo_assessment_kit.Prelude.{
  ℕ, ◌≤◌, ◌<◌, ◌≡◌, ◌≢◌, ◌↔◌, refl, String, true, none, List, [], ◌∷◌, ◌==◌, length, All,
  Bool-cases, inl, inr, if◌then◌else◌, arith, eqb, ◌&&◌,
}
use repo_assessment_kit.Prelude.Result.{ok}
use repo_assessment_kit.Protocol.Grammar.{codes}
use repo_assessment_kit.Evidence.{
  secret, host_path, RedactionMatch, sanitize_evidence_text, all_matches,
}
use repo_assessment_kit.Evidence.Kept.{MatchesText, Apart, matches-Apart}
use repo_assessment_kit.Evidence.Covered.{NoneCrosses, covered, found-covered}
use repo_assessment_kit.Evidence.Rewrite.{redacted_from, sanitize-eq-redacted}
use repo_assessment_kit.Evidence.Paths.{
  normalize_repository_path, follow, split, reverse_onto, normalize-below,
}
use repo_assessment_kit.Evidence.Admit.{
  StorageState, Runtime, AdmitTextEvidenceInput, AdmittedTextEvidence, blob_of, occurrence_of,
  admit_text_evidence, IsClean, printed, admit_text_evidence-IsClean,
}

abbrev crossing : List ℕ
crossing = codes "/tmp/password: abcdef"

-- What the two rules find in that text.
rules_match : String → List ℕ → List (ℕ × ℕ)
rules_match rule input =
    if eqb (length input) 21
    then (if rule == "credential-assignment"
        then (5, 16) ∷ []
        else if rule == "posix-user-path"
        then (0, 14) ∷ []
        else [])
    else []

rules_match-MatchesText : MatchesText rules_match
unfolding rules_match
rules_match-MatchesText rule input = elim (Bool-cases (eqb (length input) 21)) [
  | inr other ↦ rw other tt
  | inl same ↦ elim (Bool-cases (rule == "credential-assignment")) [
    | inl e ↦ rw (same, e) ((omega arith, ground arith), tt)
    | inr e ↦ elim (Bool-cases (rule == "posix-user-path")) [
      | inl e' ↦ rw (same, e, e') ((omega arith, ground arith), tt)
      | inr e' ↦ rw (same, e, e') tt
    ]
  ]
]

abbrev path_match : RedactionMatch
path_match = record { kind = host_path; rule_id = "posix-user-path"; start = 0; end = 14 }

abbrev credential_match : RedactionMatch
credential_match = record { kind = secret; rule_id = "credential-assignment"; start = 5; end = 21 }

crossing_found : all_matches rules_match crossing ≡ credential_match ∷ path_match ∷ []
unfolding all_matches rules_match
crossing_found = refl

matches-Apart_example :
    Apart (length crossing) 0 (sanitize_evidence_text rules_match crossing).matches
matches-Apart_example = matches-Apart rules_match rules_match-MatchesText crossing

sanitize-eq-redacted_example :
    (sanitize_evidence_text rules_match crossing).text
    ≡ redacted_from (sanitize_evidence_text rules_match crossing).matches 0 crossing
sanitize-eq-redacted_example = sanitize-eq-redacted rules_match rules_match-MatchesText crossing

-- The value of the password is left in the text, which is classified as if it held no secret.
crossing_leaks :
    (sanitize_evidence_text rules_match crossing).text ≡ codes "[REDACTED HOST PATH] abcdef"
unfolding sanitize_evidence_text rules_match
crossing_leaks = refl

-- A rule that finds the host path alone.
path_rule : String → List ℕ → List (ℕ × ℕ)
path_rule rule input =
    if eqb (length input) 21 && rule == "posix-user-path" then (0, 14) ∷ [] else []

path_rule-MatchesText : MatchesText path_rule
unfolding path_rule
path_rule-MatchesText rule input =
    elim (Bool-cases (eqb (length input) 21 && rule == "posix-user-path")) [
      | inl e ↦ rw e ((omega arith, ground arith), tt)
      | inr e ↦ rw e tt
    ]

path_found : all_matches path_rule crossing ≡ path_match ∷ []
unfolding all_matches path_rule
path_found = refl

path_rule-NoneCrosses : NoneCrosses (all_matches path_rule crossing)
path_rule-NoneCrosses = rw path_found ((λ from to. omega arith, tt), tt)

found-covered_example :
    All
      (λ m.
        (i : ℕ)
        → m.start ≤ i
        → i < m.end
        → covered i (sanitize_evidence_text path_rule crossing).matches ≡ true)
      (all_matches path_rule crossing)
found-covered_example = found-covered path_rule path_rule-MatchesText crossing path_rule-NoneCrosses

source_path : normalize_repository_path (codes "src/main.ts") ≡ ok (codes "src/main.ts")
unfolding normalize_repository_path
source_path = refl

normalize-below_example :
    (codes "src/main.ts" ≡ codes "src/main.ts")
    × ((directory : List (List ℕ))
        → follow directory (split (codes "src/main.ts"))
          ≡ reverse_onto (split (codes "src/main.ts")) directory)
normalize-below_example = normalize-below (codes "src/main.ts") (codes "src/main.ts") source_path

abbrev node : Runtime
node = record {
  match_all = path_rule;
  sha256_hex = λ text. codes "0123456789abcdef0123456789abcdef";
  byte_length = λ text. length text;
  decimal = λ n. [];
  stringify = λ blob occurrence text. text;
}

abbrev input : AdmitTextEvidenceInput
input = record {
  run_id = codes "run_1";
  snapshot_id = codes "snp_1";
  activity_id = codes "act_1";
  repo_rel_path = codes "src/main.ts";
  evidence_type = codes "excerpt";
  title = codes "A path";
  text = crossing;
  captured_at = codes "2026-01-01T00:00:00Z";
  media_type = none;
  start_line = none;
  end_line = none;
  occurrence_key = none;
  collection_limitations = none;
}

abbrev evidence : AdmittedTextEvidence
evidence =
    let sanitized = sanitize_evidence_text path_rule crossing in
    record {
      blob = blob_of node input sanitized;
      occurrence = occurrence_of node input (codes "src/main.ts") sanitized;
      safe_text = sanitized.text;
      redactions = sanitized.matches;
    }

evidence_admitted : admit_text_evidence node input ≡ ok evidence
unfolding admit_text_evidence normalize_repository_path path_rule sanitize_evidence_text
evidence_admitted = refl

admit_text_evidence-IsClean_example :
    IsClean node (printed node evidence)
    × (evidence.safe_text ≡ (sanitize_evidence_text path_rule crossing).text)
    × (evidence.occurrence.source_locator.repo_rel_path ≡ codes "src/main.ts")
    × ((evidence.blob.storage_state ≡ StorageState.redacted) ↔ (evidence.redactions ≢ []))
admit_text_evidence-IsClean_example =
    admit_text_evidence-IsClean node input evidence evidence_admitted
