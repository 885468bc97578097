-- ===== src/Evidence/Order.antt =====
-- `sort` of packages/evidence/src/index.ts: the matches in the order in which they are redacted.
use repo_assessment_kit.Prelude.{
  ◌≡◌, true, false, List, [], ◌∷◌, ◌++◌, arith, All, Bool-cases, inl, inr,
}
use repo_assessment_kit.Evidence.{RedactionMatch, before, insert_match, sort_matches}

module _ {ℓ κ} {A : Type ℓ} (P : A → Type κ) where
  pub All-append : (xs ys : List A) → All P xs → All P ys → All P (xs ++ ys)
  All-append [] ys _ hs = hs
  All-append (x ∷ xs) ys (h, rest) hs = (h, All-append xs ys rest hs)

module _ {ℓ κ} {A : Type ℓ} {P : A → Type κ} where
  pub All-map {μ} : {Q : A → Type μ} (xs : List A) → ((x : A) → P x → Q x) → All P xs → All Q xs
  All-map [] step h = tt
  All-map (x ∷ xs) step (h, hs) = (step x h, All-map xs step hs)

module _ {κ} (P : RedactionMatch → Type κ) where
  All-insert_match :
      (m : RedactionMatch) (ms : List RedactionMatch) → P m → All P ms → All P (insert_match m ms)
  unfolding insert_match
  All-insert_match m [] h hs = (h, tt)
  All-insert_match m (x ∷ xs) h (hx, hs) = elim (Bool-cases (before x m)) [
    | inl e ↦ rw e (hx, All-insert_match m xs h hs)
    | inr e ↦ rw e (h, (hx, hs))
  ]

  All-of_insert_match :
      (m : RedactionMatch) (ms : List RedactionMatch) → All P (insert_match m ms) → P m × All P ms
  unfolding insert_match
  All-of_insert_match m [] h = h
  All-of_insert_match m (x ∷ xs) h = elim (Bool-cases (before x m)) [
    | inl e ↦
        let (hx, hs) = (rw e at h) in
        let (hm, rest) = All-of_insert_match m xs hs in (hm, (hx, rest))
    | inr e ↦ rw e at h
  ]

  -- Sorting keeps the matches.
  pub All-sort_matches : (ms : List RedactionMatch) → All P ms → All P (sort_matches ms)
  unfolding sort_matches
  All-sort_matches [] h = h
  All-sort_matches (m ∷ ms) (h, hs) =
      All-insert_match m (sort_matches ms) h (All-sort_matches ms hs)

  pub All-of_sort_matches : (ms : List RedactionMatch) → All P (sort_matches ms) → All P ms
  unfolding sort_matches
  All-of_sort_matches [] h = h
  All-of_sort_matches (m ∷ ms) h =
      let (hm, hs) = All-of_insert_match m (sort_matches ms) h in (hm, All-of_sort_matches ms hs)

-- No match stands before one that the comparison places first.
abbrev pub IsSorted : List RedactionMatch → Type 0
IsSorted [] = Unit
IsSorted (m ∷ ms) = All (λ x. before x m ≡ false) ms × IsSorted ms

before-asymmetric : (x m : RedactionMatch) → before x m ≡ true → before m x ≡ false
unfolding before
before-asymmetric x m h = ground arith

before_trans :
    (x m y : RedactionMatch) → before x m ≡ false → before y x ≡ false → before y m ≡ false
unfolding before
before_trans x m y h k = ground arith

insert_match-IsSorted :
    (m : RedactionMatch) (ms : List RedactionMatch) → IsSorted ms → IsSorted (insert_match m ms)
unfolding insert_match
insert_match-IsSorted m [] h = (tt, tt)
insert_match-IsSorted m (x ∷ xs) (hx, hs) = elim (Bool-cases (before x m)) [
  | inl e ↦
      rw e (All-insert_match _ m xs (before-asymmetric x m e) hx, insert_match-IsSorted m xs hs)
  | inr e ↦ rw e ((e, All-map xs (λ y k. before_trans x m y e k) hx), (hx, hs))
]

pub sort_matches-IsSorted : (ms : List RedactionMatch) → IsSorted (sort_matches ms)
unfolding sort_matches
sort_matches-IsSorted [] = tt
sort_matches-IsSorted (m ∷ ms) =
    insert_match-IsSorted m (sort_matches ms) (sort_matches-IsSorted ms)
