-- ===== src/Evidence/Kept.antt =====
-- What `ordered` holds in `sanitizeEvidenceText` of packages/evidence/src/index.ts: matches that do
-- not overlap, from left to right.
use repo_assessment_kit.Prelude.{
  ℕ, ◌+◌, ◌≤◌, ◌<◌, ◌≡◌, String, true, Option, none, some, List, [], ◌∷◌, map, length, arith, All,
  Bool-cases, inl, inr,
}
use repo_assessment_kit.Evidence.{
  Kind, secret, host_path, RedactionMatch, secret_rules, host_path_rules, sort_matches, is_clear,
  keep, rule_matches, rules_matches, all_matches, ordered, sanitize_evidence_text,
}
use repo_assessment_kit.Evidence.Order.{All-append, All-sort_matches}

-- A match that takes some of a text of `n` characters.
abbrev pub Lies : ℕ → RedactionMatch → Type 0
Lies n m = (m.start < m.end) × (m.end ≤ n)

-- Documented behaviour of `matchAll`: a match lies in the text. No rule matches the empty text.
abbrev pub MatchesText : (String → List ℕ → List (ℕ × ℕ)) → Type 0
MatchesText match_all =
    (rule : String) (input : List ℕ)
    → All (λ found. (0 < found.1) × (found.0 + found.1 ≤ length input)) (match_all rule input)

-- Matches of a text of `n` characters that stand one after another from `cursor`.
abbrev pub Apart : ℕ → ℕ → List RedactionMatch → Type 0
Apart n cursor [] = Unit
Apart n cursor (m ∷ ms) = (cursor ≤ m.start) × Lies n m × Apart n m.end ms

abbrev pub end_of : Option RedactionMatch → ℕ
end_of none = 0
end_of (some m) = m.end

pub is_clear-le :
    (previous : Option RedactionMatch) (m : RedactionMatch)
    → is_clear previous m ≡ true
    → end_of previous ≤ m.start
unfolding is_clear
is_clear-le none m h = omega arith
is_clear-le (some p) m h = ground arith

keep-Apart :
    (n : ℕ) (previous : Option RedactionMatch) (ms : List RedactionMatch)
    → All (Lies n) ms
    → Apart n (end_of previous) (keep previous ms)
unfolding keep
keep-Apart n previous [] h = tt
keep-Apart n previous (m ∷ ms) (h, hs) = elim (Bool-cases (is_clear previous m)) [
  | inl e ↦ rw e (is_clear-le previous m e, (h.0, h.1), keep-Apart n (some m) ms hs)
  | inr e ↦ rw e (keep-Apart n previous ms hs)
]

module _ (match_all : String → List ℕ → List (ℕ × ℕ)) (within : MatchesText match_all)
    (input : List ℕ) where
  located :
      (kind : Kind) (rule : String) (found : List (ℕ × ℕ))
      → All (λ f. (0 < f.1) × (f.0 + f.1 ≤ length input)) found
      → All
          (Lies (length input))
          (map (λ f. record { kind = kind; rule_id = rule; start = f.0; end = f.0 + f.1 }) found)
  located kind rule [] h = tt
  located kind rule (f ∷ found) (h, hs) = ((omega arith, omega arith), located kind rule found hs)

  rules_matches-Lies :
      (kind : Kind) (rules : List String)
      → All (Lies (length input)) (rules_matches match_all kind rules input)
  unfolding rules_matches
  rules_matches-Lies kind [] = tt
  rules_matches-Lies kind (rule ∷ rules) =
      All-append _ (rule_matches match_all kind rule input) _
        (located kind rule (match_all rule input) (within rule input))
        (rules_matches-Lies kind rules)

  pub all_matches-Lies : All (Lies (length input)) (all_matches match_all input)
  unfolding all_matches
  all_matches-Lies =
      All-append _ (rules_matches match_all secret secret_rules input) _
        (rules_matches-Lies secret secret_rules) (rules_matches-Lies host_path host_path_rules)

  -- The redactions that are reported lie in the text, none is empty, they stand from left to right
  -- and no two of them overlap.
  pub matches-Apart : Apart (length input) 0 (sanitize_evidence_text match_all input).matches
  unfolding sanitize_evidence_text ordered
  matches-Apart =
      keep-Apart (length input) none (sort_matches (all_matches match_all input))
        (All-sort_matches _ (all_matches match_all input) all_matches-Lies)
