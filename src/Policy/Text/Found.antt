-- ===== src/Policy/Text/Found.antt =====
-- What the tests on texts of packages/runtime/src/policy.ts find.
use repo_assessment_kit.Prelude.{
  ◌≡◌, ◌≢◌, refl, ap, true, false, some, List, [], ◌∷◌, ◌++◌, every, arith, eqb, Bool-cases,
  Option-cases, inl, inr, ℕ,
}
use repo_assessment_kit.Protocol.Grammar.{is_digit}
use repo_assessment_kit.Policy.Text.{same_codes, past_prefix, starts, contains_part, all_digits}

past_prefix-append :
    (prefix cs rest : List ℕ) → past_prefix prefix cs ≡ some rest → cs ≡ prefix ++ rest
unfolding past_prefix
past_prefix-append [] cs rest h = cc
past_prefix-append (p ∷ ps) [] rest h = cc
past_prefix-append (p ∷ ps) (c ∷ cs) rest h = elim (Bool-cases (eqb p c)) [
  | inl same ↦
      let e : p ≡ c = ground arith in
      rw e (ap (λ t. c ∷ t) (past_prefix-append ps cs rest (rw same at h)))
  | inr differs ↦ absurd (ground arith)
]

starts-append :
    (prefix cs : List ℕ) → starts prefix cs ≡ true → (rest : List ℕ) × (cs ≡ prefix ++ rest)
unfolding starts
starts-append prefix cs h = elim (Option-cases (past_prefix prefix cs)) [
  | inl missing ↦ absurd (ground arith)
  | inr (rest, found) ↦ (rest, past_prefix-append prefix cs rest found)
]

pub contains_part-append :
    (part cs : List ℕ)
    → contains_part part cs ≡ true
    → (before : List ℕ) × (rest : List ℕ) × (cs ≡ before ++ (part ++ rest))
unfolding contains_part
contains_part-append part [] h = let (rest, e) = starts-append part [] h in ([], rest, e)
contains_part-append part (c ∷ cs) h = elim (Bool-cases (starts part (c ∷ cs))) [
  | inl here ↦ let (rest, e) = starts-append part (c ∷ cs) here in ([], rest, e)
  | inr later ↦
      let (before, rest, e) = contains_part-append part cs (rw later at h) in
      (c ∷ before, rest, ap (λ t. c ∷ t) e)
]

pub same_codes-eq : (xs ys : List ℕ) → same_codes xs ys ≡ true → xs ≡ ys
unfolding same_codes
same_codes-eq [] [] h = refl
same_codes-eq (x ∷ xs) (y ∷ ys) h = ground (arith, same_codes-eq xs ys)
same_codes-eq [] (y ∷ ys) h = cc
same_codes-eq (x ∷ xs) [] h = cc

pub same_codes_refl : (xs : List ℕ) → same_codes xs xs ≡ true
unfolding same_codes
same_codes_refl [] = refl
same_codes_refl (x ∷ xs) = ground (arith, same_codes_refl xs)

pub same_codes-ne : (xs ys : List ℕ) → same_codes xs ys ≡ false → xs ≢ ys
same_codes-ne xs ys h e = ground (arith, same_codes_refl ys, ap (λ t. same_codes t ys) e)

pub all_digits-every : (cs : List ℕ) → all_digits cs ≡ true → every is_digit cs ≡ true
unfolding all_digits
all_digits-every [] h = cc
all_digits-every (c ∷ cs) h = h

pub past_prefix-found : (prefix rest : List ℕ) → past_prefix prefix (prefix ++ rest) ≡ some rest
unfolding past_prefix
past_prefix-found [] rest = refl
past_prefix-found (p ∷ ps) rest = ground (arith, past_prefix-found ps rest)

starts-found : (part rest : List ℕ) → starts part (part ++ rest) ≡ true
unfolding starts
starts-found part rest = rw (starts, past_prefix-found part rest) refl

pub contains_part-found :
    (part before rest : List ℕ) → contains_part part (before ++ (part ++ rest)) ≡ true
unfolding contains_part
contains_part-found [] [] [] = unfold starts past_prefix in refl
contains_part-found [] [] (r ∷ rest) = rw (starts-found [] (r ∷ rest)) refl
contains_part-found (p ∷ part) [] rest = rw (starts-found (p ∷ part) rest) refl
contains_part-found part (c ∷ before) rest =
    let later = contains_part-found part before rest in ground arith
