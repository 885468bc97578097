-- ===== src/Evidence.antt =====
-- packages/evidence/src/index.ts: how the text of a piece of evidence is redacted before it is stored.
-- A text is the list of its UTF-16 code units, as the source indexes it. Which parts of a text the
-- expression of a rule matches is `match_all`, an argument: regular expressions are not modelled.
pub mod Order
pub mod Kept
pub mod Covered
pub mod Rewrite
pub mod Crossing
pub mod Paths
pub mod Admit
pub mod Tests
use repo_assessment_kit.Prelude.{
  ℕ, ◌+◌, ◌-◌, String, Bool, true, false, ◌&&◌, ◌||◌, Option, none, some, List, [], ◌∷◌, ◌++◌, map,
  ltb, leb, eqb, take, drop, any, if◌then◌else◌,
}
use repo_assessment_kit.Protocol.Grammar.{codes}

pub data Kind : Type 0 where
  secret host_path : Kind

pub record RedactionMatch : Type 0 where
  pub kind : Kind
  pub rule_id : String
  pub start : ℕ
  pub end : ℕ

pub data Sensitivity : Type 0 where
  public customer_confidential secret_suspected restricted : Sensitivity

pub data RedactionState : Type 0 where
  none_required redacted : RedactionState

pub record SanitizedEvidence : Type 0 where
  pub text : List ℕ
  pub matches : List RedactionMatch
  pub sensitivity : Sensitivity
  pub redaction_state : RedactionState

-- The identifiers of the rules; their expressions are `match_all`, below.
abbrev pub secret_rules : List String
secret_rules =
    "private-key" ∷ "aws-access-key" ∷ "github-token" ∷ "slack-token" ∷ "credential-assignment"
    ∷ "url-credential" ∷ []

abbrev pub host_path_rules : List String
host_path_rules = "posix-user-path" ∷ "windows-user-path" ∷ []

-- `input.slice(start, end)`.
unfoldable pub slice : ℕ → ℕ → List ℕ → List ℕ
slice start end input = take (end - start) (drop start input)

-- The comparison by which `sort` places the left match first.
unfoldable pub before : RedactionMatch → RedactionMatch → Bool
before left right =
    ltb left.start right.start || eqb left.start right.start && ltb right.end left.end

-- `Array.prototype.sort`, which keeps the order of equal matches.
unfoldable pub insert_match : RedactionMatch → List RedactionMatch → List RedactionMatch
unfolding before
insert_match m [] = m ∷ []
insert_match m (x ∷ xs) = if before x m then x ∷ insert_match m xs else m ∷ x ∷ xs

unfoldable pub sort_matches : List RedactionMatch → List RedactionMatch
unfolding insert_match
sort_matches [] = []
sort_matches (m ∷ ms) = insert_match m (sort_matches ms)

-- `previous === undefined || match.start >= previous.end`.
unfoldable pub is_clear : Option RedactionMatch → RedactionMatch → Bool
is_clear none m = true
is_clear (some previous) m = leb previous.end m.start

-- The matches that are pushed to `ordered`, after `previous`.
unfoldable pub keep : Option RedactionMatch → List RedactionMatch → List RedactionMatch
unfolding is_clear
keep previous [] = []
keep previous (m ∷ ms) =
    let kept = m ∷ keep (some m) ms in
    let skipped = keep previous ms in if is_clear previous m then kept else skipped

unfoldable pub mark : RedactionMatch → List ℕ
mark m = elim m.kind [
  | secret ↦ codes "[REDACTED SECRET]"
  | host_path ↦ codes "[REDACTED HOST PATH]"
]

-- The loop that writes the text, from `cursor`.
unfoldable pub rewrite : ℕ → List RedactionMatch → List ℕ → List ℕ
unfolding slice mark
rewrite cursor [] input = drop cursor input
rewrite cursor (m ∷ ms) input = slice cursor m.start input ++ (mark m ++ rewrite m.end ms input)

unfoldable pub is_secret : RedactionMatch → Bool
is_secret m = elim m.kind [ secret ↦ true | host_path ↦ false ]

unfoldable pub sensitivity_of : List RedactionMatch → Sensitivity
unfolding is_secret
sensitivity_of ordered = if any is_secret ordered then secret_suspected else customer_confidential

unfoldable pub redaction_of : List RedactionMatch → RedactionState
redaction_of [] = none_required
redaction_of (m ∷ ms) = redacted

module _ (match_all : String → List ℕ → List (ℕ × ℕ)) where
  -- The matches of one rule; `match_all` gives `match.index` and `match[0].length`.
  unfoldable pub rule_matches : Kind → String → List ℕ → List RedactionMatch
  rule_matches kind rule_id input =
      map
        (λ found. record {
          kind = kind;
          rule_id = rule_id;
          start = found.0;
          end = found.0 + found.1;
        })
        (match_all rule_id input)

  unfoldable pub rules_matches : Kind → List String → List ℕ → List RedactionMatch
  unfolding rule_matches
  rules_matches kind [] input = []
  rules_matches kind (rule ∷ rules) input =
      rule_matches kind rule input ++ rules_matches kind rules input

  unfoldable pub all_matches : List ℕ → List RedactionMatch
  unfolding rules_matches
  all_matches input =
      rules_matches secret secret_rules input ++ rules_matches host_path host_path_rules input

  unfoldable pub ordered : List ℕ → List RedactionMatch
  unfolding all_matches sort_matches keep
  ordered input = keep none (sort_matches (all_matches input))

  unfoldable pub sanitize_evidence_text : List ℕ → SanitizedEvidence
  unfolding ordered rewrite sensitivity_of redaction_of
  sanitize_evidence_text input = record {
    text = rewrite 0 (ordered input) input;
    matches = ordered input;
    sensitivity = sensitivity_of (ordered input);
    redaction_state = redaction_of (ordered input);
  }
