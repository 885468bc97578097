-- ===== src/Evidence/Rewrite.antt =====
-- The text that `sanitizeEvidenceText` of packages/evidence/src/index.ts writes, one character at a time.
use mathlib.Core.List.{append-nil}
use repo_assessment_kit.Prelude.{
  ℕ, zero, suc, ◌+◌, ◌-◌, ◌≤◌, ◌<◌, ◌≡◌, refl, sym, ap, ◌∙◌, String, true, false, List, [], ◌∷◌,
  ◌++◌, eqb, length, take, drop, arith, if◌then◌else◌,
}
use repo_assessment_kit.Evidence.{
  RedactionMatch, slice, mark, rewrite, ordered, sanitize_evidence_text,
}
use repo_assessment_kit.Evidence.Kept.{MatchesText, Apart, matches-Apart}
use repo_assessment_kit.Evidence.Covered.{covered}

-- The marks of the redactions that start at `i`.
unfoldable pub marks : ℕ → List RedactionMatch → List ℕ
marks i [] = []
marks i (m ∷ ms) = if eqb m.start i then mark m ++ marks i ms else marks i ms

-- The characters from `i` on, without those that a redaction covers, and the mark of each redaction
-- where it starts.
unfoldable pub redacted_from : List RedactionMatch → ℕ → List ℕ → List ℕ
unfolding marks
redacted_from ms i [] = []
redacted_from ms i (c ∷ cs) =
    let rest = redacted_from ms (i + 1) cs in
    marks i ms ++ (if covered i ms then rest else c ∷ rest)

marks-below : (n a i : ℕ) (ms : List RedactionMatch) → Apart n a ms → i < a → marks i ms ≡ []
unfolding marks
marks-below n a i [] h lt = refl
marks-below n a i (m ∷ ms) (h, l, rest) lt =
    ground (arith, marks-below n m.end i ms rest (omega arith))

covered-below : (n a i : ℕ) (ms : List RedactionMatch) → Apart n a ms → i < a → covered i ms ≡ false
covered-below n a i [] h lt = refl
covered-below n a i (m ∷ ms) (h, l, rest) lt =
    ground (arith, covered-below n m.end i ms rest (omega arith))

-- The writer, on the text from the cursor on.
rewrite_from : ℕ → List RedactionMatch → List ℕ → List ℕ
rewrite_from cursor [] cs = cs
rewrite_from cursor (m ∷ ms) cs =
    take (m.start - cursor) cs ++ (mark m ++ rewrite_from m.end ms (drop (m.end - cursor) cs))

drop-nil : (n : ℕ) → drop {A = ℕ} n [] ≡ []
drop-nil zero = refl
drop-nil (suc n) = refl

drop-drop : (a b : ℕ) (cs : List ℕ) → drop a (drop b cs) ≡ drop (b + a) cs
drop-drop a zero cs = ap (λ n. drop n cs) (omega arith)
drop-drop a (suc b) [] = rw (drop-nil a, drop-nil (suc b + a)) refl
drop-drop a (suc b) (c ∷ cs) =
    drop-drop a b cs
    ∙ ap (λ n. drop n (c ∷ cs)) (let e : suc (b + a) ≡ suc b + a = omega arith in e)

rewrite-eq-rewrite_from :
    (n cursor : ℕ) (ms : List RedactionMatch) (input : List ℕ)
    → Apart n cursor ms
    → rewrite cursor ms input ≡ rewrite_from cursor ms (drop cursor input)
unfolding rewrite rewrite_from slice
rewrite-eq-rewrite_from n cursor [] input h = refl
rewrite-eq-rewrite_from n cursor (m ∷ ms) input (h, l, rest) =
    ap (λ t. take (m.start - cursor) (drop cursor input) ++ (mark m ++ t))
      (rewrite-eq-rewrite_from n m.end ms input rest
        ∙ ap (rewrite_from m.end ms) (
            ap (λ k. drop k input) (let e : m.end ≡ cursor + (m.end - cursor) = omega arith in e)
            ∙ sym (drop-drop (m.end - cursor) cursor input)))

-- Up to the first redaction every character is kept.
until_start :
    (n d i : ℕ) (m : RedactionMatch) (ms : List RedactionMatch) (cs : List ℕ)
    → Apart n i (m ∷ ms)
    → i + d ≡ m.start
    → redacted_from (m ∷ ms) i cs ≡ take d cs ++ redacted_from (m ∷ ms) m.start (drop d cs)
unfolding redacted_from
until_start n zero i m ms cs h e = ap (λ k. redacted_from (m ∷ ms) k cs) (omega arith)
until_start n (suc d) i m ms [] h e = refl
until_start n (suc d) i m ms (c ∷ cs) (h, l, rest) e =
    let before : Apart n m.start (m ∷ ms) = (omega arith, l, rest) in
    rw
      (
        marks-below n m.start i (m ∷ ms) before (omega arith),
        covered-below n m.start i (m ∷ ms) before (omega arith),
      )
      (ap (λ t. c ∷ t) (until_start n d (i + 1) m ms cs (omega arith, l, rest) (omega arith)))

inside_marks :
    (n i : ℕ) (m : RedactionMatch) (ms : List RedactionMatch)
    → Apart n m.end ms
    → m.start < i
    → i < m.end
    → marks i (m ∷ ms) ≡ []
unfolding marks
inside_marks n i m ms rest from to = ground (arith, marks-below n m.end i ms rest)

inside_covered :
    (i : ℕ) (m : RedactionMatch) (ms : List RedactionMatch)
    → m.start ≤ i
    → i < m.end
    → covered i (m ∷ ms) ≡ true
inside_covered i m ms from to = ground arith

-- Inside a redaction no character is kept.
until_end :
    (n d i : ℕ) (m : RedactionMatch) (ms : List RedactionMatch) (cs : List ℕ)
    → Apart n m.end ms
    → m.start < i
    → i + d ≡ m.end
    → redacted_from (m ∷ ms) i cs ≡ redacted_from (m ∷ ms) m.end (drop d cs)
unfolding redacted_from
until_end n zero i m ms cs h from e = ap (λ k. redacted_from (m ∷ ms) k cs) (omega arith)
until_end n (suc d) i m ms [] h from e = refl
until_end n (suc d) i m ms (c ∷ cs) h from e =
    rw
      (
        inside_marks n i m ms h from (omega arith),
        inside_covered i m ms (omega arith) (omega arith),
      )
      (until_end n d (i + 1) m ms cs h (omega arith) (omega arith))

-- Behind a redaction the others decide.
past_end :
    (i : ℕ) (m : RedactionMatch) (ms : List RedactionMatch) (cs : List ℕ)
    → m.start < m.end
    → m.end ≤ i
    → redacted_from (m ∷ ms) i cs ≡ redacted_from ms i cs
unfolding redacted_from marks
past_end i m ms [] l h = refl
past_end i m ms (c ∷ cs) l h = ground (arith, past_end (i + 1) m ms cs l)

start_marks :
    (n : ℕ) (m : RedactionMatch) (ms : List RedactionMatch)
    → Apart n m.end ms
    → m.start < m.end
    → marks m.start (m ∷ ms) ≡ mark m
unfolding marks
start_marks n m ms rest l =
    ground (arith, marks-below n m.end m.start ms rest l, append-nil (mark m))

length-drop : (k : ℕ) (cs : List ℕ) → length (drop k cs) ≡ length cs - k
length-drop zero cs = omega arith
length-drop (suc k) [] = omega arith
length-drop (suc k) (c ∷ cs) = omega (arith, length-drop k cs)

at_start :
    (n : ℕ) (m : RedactionMatch) (ms : List RedactionMatch) (cs : List ℕ)
    → Apart n m.end ms
    → m.start < m.end
    → m.end ≤ m.start + length cs
    → redacted_from (m ∷ ms) m.start cs
      ≡ mark m ++ redacted_from ms m.end (drop (m.end - m.start) cs)
unfolding redacted_from
at_start n m ms [] rest l inside = absurd (omega arith)
at_start n m ms (c ∷ cs) rest l inside =
    rw (start_marks n m ms rest l, inside_covered m.start m ms (omega arith) l)
      (ap (λ t. mark m ++ t)
        (until_end n (m.end - (m.start + 1)) (m.start + 1) m ms cs rest (omega arith) (omega arith)
          ∙ past_end m.end m ms (drop (m.end - (m.start + 1)) cs) l (omega arith)
          ∙ ap (λ d. redacted_from ms m.end (drop d (c ∷ cs)))
              (let e : suc (m.end - (m.start + 1)) ≡ m.end - m.start = omega arith in e)))

no_marks : (i : ℕ) (cs : List ℕ) → redacted_from [] i cs ≡ cs
unfolding redacted_from marks
no_marks i [] = refl
no_marks i (c ∷ cs) = ap (λ t. c ∷ t) (no_marks (i + 1) cs)

-- From any place between two redactions.
rewrite_from-eq-redacted_from :
    (n i : ℕ) (ms : List RedactionMatch) (cs : List ℕ)
    → Apart n i ms
    → i + length cs ≡ n
    → rewrite_from i ms cs ≡ redacted_from ms i cs
unfolding rewrite_from
rewrite_from-eq-redacted_from n i [] cs h e = sym (no_marks i cs)
rewrite_from-eq-redacted_from n i (m ∷ ms) cs (h, l, rest) e =
    let tail = drop (m.start - i) cs in
    let shorter : length tail ≡ length cs - (m.start - i) = length-drop (m.start - i) cs in
    ap (λ t. take (m.start - i) cs ++ t)
      (ap (λ t. mark m ++ t)
          (rewrite_from-eq-redacted_from n m.end ms (drop (m.end - i) cs) rest
              (omega (arith, length-drop (m.end - i) cs))
            ∙ ap (redacted_from ms m.end) (
                ap (λ k. drop k cs)
                  (let e' : m.end - i ≡ (m.start - i) + (m.end - m.start) = omega arith in e')
                ∙ sym (drop-drop (m.end - m.start) (m.start - i) cs)))
        ∙ sym (at_start n m ms tail rest l.0 (omega arith)))
    ∙ sym (until_start n (m.start - i) i m ms cs (h, l, rest) (omega arith))

module _ (match_all : String → List ℕ → List (ℕ × ℕ)) (within : MatchesText match_all)
    (input : List ℕ) where
  -- The sanitized text is the input without the characters that the redactions cover, with the mark
  -- of each redaction in the place where it starts.
  pub sanitize-eq-redacted :
      (sanitize_evidence_text match_all input).text
      ≡ redacted_from (sanitize_evidence_text match_all input).matches 0 input
  unfolding sanitize_evidence_text
  sanitize-eq-redacted =
      rewrite-eq-rewrite_from (length input) 0 (ordered match_all input) input
        (matches-Apart match_all within input)
      ∙ rewrite_from-eq-redacted_from (length input) 0 (ordered match_all input) input
          (matches-Apart match_all within input) (omega arith)
