-- ===== src/Evidence/Covered.antt =====
-- Which characters the redactions of `sanitizeEvidenceText` in packages/evidence/src/index.ts cover.
use mathlib.Core.Path.{subst}
use repo_assessment_kit.Prelude.{
  ℕ, ◌≤◌, ◌<◌, ◌≡◌, refl, sym, String, Bool, true, false, ◌&&◌, Option, none, some, List, [], ◌∷◌,
  leb, ltb, any, length, arith, All, Bool-cases, ◌⊎◌, inl, inr,
}
use repo_assessment_kit.Evidence.{
  RedactionMatch, before, sort_matches, is_clear, keep, all_matches, ordered,
  sanitize_evidence_text,
}
use repo_assessment_kit.Evidence.Order.{
  All-map, All-sort_matches, All-of_sort_matches, IsSorted, sort_matches-IsSorted,
}
use repo_assessment_kit.Evidence.Kept.{MatchesText, Lies, all_matches-Lies}

-- Whether a redaction takes the character at `i`.
abbrev pub covers : ℕ → RedactionMatch → Bool
covers i m = leb m.start i && ltb i m.end

abbrev pub covered : ℕ → List RedactionMatch → Bool
covered i ms = any (covers i) ms

-- `k` takes the first character of `m`, and all of `m` if both start together.
abbrev Catches : RedactionMatch → RedactionMatch → Type 0
Catches k m = (k.start ≤ m.start) × (m.start < k.end) × (k.start ≡ m.start → m.end ≤ k.end)

abbrev Caught : List RedactionMatch → RedactionMatch → Type 0
Caught [] m = ⊥
Caught (k ∷ ks) m = Catches k m ⊎ Caught ks m

Catches-self : (m : RedactionMatch) → m.start < m.end → Catches m m
Catches-self m h = (omega arith, h, λ _. omega arith)

Catches-earlier :
    (p m : RedactionMatch) → before m p ≡ false → is_clear (some p) m ≡ false → Catches p m
unfolding before is_clear
Catches-earlier p m h k = (ground arith, ground arith, λ e. ground arith)

keep_kept :
    (p m : RedactionMatch) (ms : List RedactionMatch)
    → is_clear (some p) m ≡ true
    → keep (some p) (m ∷ ms) ≡ m ∷ keep (some m) ms
unfolding keep
keep_kept p m ms e = rw e

keep_skipped :
    (p m : RedactionMatch) (ms : List RedactionMatch)
    → is_clear (some p) m ≡ false
    → keep (some p) (m ∷ ms) ≡ keep (some p) ms
unfolding keep
keep_skipped p m ms e = rw e

Caught-keep_after :
    (n : ℕ) (p : RedactionMatch) (ms : List RedactionMatch)
    → IsSorted (p ∷ ms)
    → All (Lies n) ms
    → All (Caught (p ∷ keep (some p) ms)) ms
Caught-keep_after n p [] h hs = tt
Caught-keep_after n p (m ∷ ms) ((hm, hp), (hms, sorted)) (l, ls) =
    elim (Bool-cases (is_clear (some p) m)) [
      | inl e ↦
          subst (λ ks. All (Caught (p ∷ ks)) (m ∷ ms)) (sym (keep_kept p m ms e))
            (
              inr (inl (Catches-self m l.0)),
              All-map ms (λ x c. inr c) (Caught-keep_after n m ms (hms, sorted) ls),
            )
      | inr e ↦
          subst (λ ks. All (Caught (p ∷ ks)) (m ∷ ms)) (sym (keep_skipped p m ms e))
            (inl (Catches-earlier p m hm e), Caught-keep_after n p ms (hp, sorted) ls)
    ]

Caught-keep :
    (n : ℕ) (ms : List RedactionMatch)
    → IsSorted ms
    → All (Lies n) ms
    → All (Caught (keep none ms)) ms
unfolding keep is_clear
Caught-keep n [] h hs = tt
Caught-keep n (m ∷ ms) h (l, ls) = (inl (Catches-self m l.0), Caught-keep_after n m ms h ls)

pub All-keep {κ} :
    (P : RedactionMatch → Type κ) (previous : Option RedactionMatch) (ms : List RedactionMatch)
    → All P ms
    → All P (keep previous ms)
unfolding keep
All-keep P previous [] h = tt
All-keep P previous (m ∷ ms) (h, hs) = elim (Bool-cases (is_clear previous m)) [
  | inl e ↦ rw e (h, All-keep P (some m) ms hs)
  | inr e ↦ rw e (All-keep P previous ms hs)
]

-- A match that starts inside another one ends inside it.
abbrev pub Nests : RedactionMatch → RedactionMatch → Type 0
Nests m k = k.start < m.start → m.start < k.end → m.end ≤ k.end

abbrev pub NoneCrosses : List RedactionMatch → Type 0
NoneCrosses ms = All (λ m. All (Nests m) ms) ms

Catches-covers :
    (k m : RedactionMatch) (i : ℕ)
    → Catches k m
    → Nests m k
    → m.start ≤ i
    → i < m.end
    → covers i k ≡ true
Catches-covers k m i (first, inside, together) nests from to = ground (arith, nests, together)

covered-of_Caught :
    (ks : List RedactionMatch) (m : RedactionMatch) (i : ℕ)
    → Caught ks m
    → All (Nests m) ks
    → m.start ≤ i
    → i < m.end
    → covered i ks ≡ true
covered-of_Caught [] m i c h from to = absurd c
covered-of_Caught (k ∷ ks) m i (inl c) (h, hs) from to = rw (Catches-covers k m i c h from to) refl
covered-of_Caught (k ∷ ks) m i (inr c) (h, hs) from to =
    let rest = covered-of_Caught ks m i c hs from to in ground arith

All-both {ℓ κ μ ν} :
    {A : Type ℓ} {P : A → Type κ} {Q : A → Type μ} {R : A → Type ν} (xs : List A)
    → ((x : A) → P x → Q x → R x)
    → All P xs
    → All Q xs
    → All R xs
All-both [] step p q = tt
All-both (x ∷ xs) step (p, ps) (q, qs) = (step x p q, All-both xs step ps qs)

module _ (match_all : String → List ℕ → List (ℕ × ℕ)) (within : MatchesText match_all)
    (input : List ℕ) where
  found-Caught : All (Caught (ordered match_all input)) (all_matches match_all input)
  unfolding ordered
  found-Caught = All-of_sort_matches _ (all_matches match_all input) (
      Caught-keep (length input) (sort_matches (all_matches match_all input))
        (sort_matches-IsSorted (all_matches match_all input))
        (All-sort_matches _ (all_matches match_all input)
          (all_matches-Lies match_all within input)))

  -- Every character of every match that some rule finds is covered by a redaction, if no match
  -- starts inside another one and ends behind it.
  pub found-covered :
      NoneCrosses (all_matches match_all input)
      → All
          (λ m.
            (i : ℕ)
            → m.start ≤ i
            → i < m.end
            → covered i (sanitize_evidence_text match_all input).matches ≡ true)
          (all_matches match_all input)
  unfolding sanitize_evidence_text ordered
  found-covered none_crosses =
      All-both (all_matches match_all input)
        (λ m caught nests i from to.
          covered-of_Caught (ordered match_all input) m i caught
            (All-keep (Nests m) none (sort_matches (all_matches match_all input))
              (All-sort_matches _ (all_matches match_all input) nests))
            from to)
        found-Caught none_crosses
