-- ===== src/Protocol/Strict/Leaves.antt =====
-- What the readers of scripts/host-helper-protocol.mjs leave of the text: never more than they were
-- given, and less once a character is matched.
use repo_assessment_kit.Prelude.{
  ℕ, ◌≤◌, ◌<◌, ◌≡◌, ◌≢◌, refl, ap, Bool, true, false, none, some, List, [], ◌∷◌, eqb, ltb, length,
  arith, Option-cases, inl, inr, ◌⊎◌, if◌then◌else◌,
}
use repo_assessment_kit.Protocol.Reader.{
  Read, got, refused, out_of_fuel, ◌>>=◌, skip_space, expect, closes, separator,
}
use repo_assessment_kit.Protocol.Strings.{
  scan_string, prepend, plain, unescape, join_pairs, text_of, finish_string, read_string,
}
use repo_assessment_kit.Protocol.Scalars.{digits, some_digits, signed_digits, fraction, exponent}

-- A run that kept within its fuel and leaves at most `n` characters, or refuses.
pub data Leaves {ℓ} {A : Type ℓ} (n : ℕ) : Read (A × List ℕ) → Type ℓ where
  left : {a : A} {rest : List ℕ} → length rest ≤ n → Leaves n (got (a, rest))
  gave_up : Leaves n refused

module _ {ℓ} {A : Type ℓ} where
  pub Leaves-more : {n k : ℕ} {r : Read (A × List ℕ)} → n ≤ k → Leaves n r → Leaves k r
  Leaves-more le (left h) = left (omega arith)
  Leaves-more le gave_up = gave_up

  pub Leaves-if :
      (b : Bool) {n : ℕ} (x y : Read (A × List ℕ))
      → Leaves n x
      → Leaves n y
      → Leaves n (if b then x else y)
  Leaves-if true x y p q = p
  Leaves-if false x y p q = q

  pub Leaves-bind {κ} :
      {B : Type κ} {n k : ℕ} {m : Read (A × List ℕ)} (next : A × List ℕ → Read (B × List ℕ))
      → Leaves n m
      → ((a : A) (rest : List ℕ) → length rest ≤ n → Leaves k (next (a, rest)))
      → Leaves k (m >>= next)
  Leaves-bind next (left {a} {rest} h) step = step a rest h
  Leaves-bind next gave_up step = gave_up

pub skip_space-le : (cs : List ℕ) → length (skip_space cs) ≤ length cs
unfolding skip_space
skip_space-le [] = omega arith
skip_space-le (c ∷ cs) = ground (arith, skip_space-le cs)

prepend-Leaves :
    {n : ℕ} (front : List ℕ) {r : Read (List ℕ × List ℕ)} → Leaves n r → Leaves n (prepend front r)
prepend-Leaves front (left h) = left h
prepend-Leaves front gave_up = gave_up

scan_string-Leaves : (cs : List ℕ) → Leaves (length cs) (scan_string cs)
unfolding scan_string
scan_string-Leaves [] = gave_up
scan_string-Leaves (c ∷ []) = Leaves-if (eqb c 34) _ _ (left (omega arith)) gave_up
scan_string-Leaves (c ∷ d ∷ cs) = Leaves-if (eqb c 34) _ _ (left (omega arith)) (
    Leaves-if (eqb c 92) _ _
      (prepend-Leaves (c ∷ d ∷ []) (Leaves-more (omega arith) (scan_string-Leaves cs)))
      (Leaves-if (ltb c 32) _ _ gave_up
        (prepend-Leaves (c ∷ []) (Leaves-more (omega arith) (scan_string-Leaves (d ∷ cs))))))

finish_string-Leaves : (inner rest : List ℕ) → Leaves (length rest) (finish_string (inner, rest))
unfolding finish_string
finish_string-Leaves inner rest = elim (Option-cases (unescape plain inner)) [
  | inl bad ↦ rw (finish_string, bad) gave_up
  | inr (units, e) ↦ elim (Option-cases (text_of (join_pairs none units))) [
    | inl bad ↦ rw (finish_string, e, bad) gave_up
    | inr (s, e') ↦ rw (finish_string, e, e') (left (omega arith))
  ]
]

pub read_string-Leaves : (cs : List ℕ) → Leaves (length cs) (read_string cs)
unfolding read_string
read_string-Leaves [] = gave_up
read_string-Leaves (c ∷ cs) =
    Leaves-if (eqb c 34) _ _
      (Leaves-bind finish_string (scan_string-Leaves cs)
        λ inner rest h. Leaves-more (omega arith) (finish_string-Leaves inner rest))
      gave_up

pub digits-le : (cs : List ℕ) → length (digits cs).1 ≤ length cs
unfolding digits
digits-le [] = omega arith
digits-le (c ∷ cs) = ground (arith, digits-le cs)

some_digits-le :
    (mark all cs : List ℕ)
    → length cs ≤ length all
    → length (some_digits mark all cs).1 ≤ length all
unfolding some_digits
some_digits-le mark all cs h = ground (arith, digits-le cs)

pub fraction-le : (cs : List ℕ) → length (fraction cs).1 ≤ length cs
unfolding fraction
fraction-le [] = omega arith
fraction-le (c ∷ cs) = ground (arith, some_digits-le (c ∷ []) (c ∷ cs) cs)

pub exponent-le : (cs : List ℕ) → length (exponent cs).1 ≤ length cs
unfolding exponent signed_digits
exponent-le [] = omega arith
exponent-le (c ∷ []) = ground arith
exponent-le (c ∷ s ∷ cs) = ground (
  arith,
  some_digits-le (c ∷ s ∷ []) (c ∷ s ∷ cs) cs,
  some_digits-le (c ∷ []) (c ∷ s ∷ cs) (s ∷ cs),
)

pub List-cases : (l : List ℕ) → (l ≡ []) ⊎ ((c : ℕ) × (cs : List ℕ) × (l ≡ c ∷ cs))
List-cases [] = inl refl
List-cases (c ∷ cs) = inr (c, cs, refl)

pub closes-lt :
    (bracket : ℕ) (cs rest : List ℕ) → closes bracket cs ≡ some rest → length rest < length cs
unfolding closes
closes-lt bracket cs rest h = elim (List-cases (skip_space cs)) [
  | inl e ↦ absurd (ground arith)
  | inr (d, r, e) ↦ ground (arith, skip_space-le cs, ap length e)
]

expect-lt : (c : ℕ) (cs rest : List ℕ) → expect c cs ≡ got rest → length rest < length cs
unfolding expect
expect-lt c cs rest h = elim (List-cases (skip_space cs)) [
  | inl e ↦ absurd (ground arith)
  | inr (d, r, e) ↦ ground (arith, skip_space-le cs, ap length e)
]

expect-ne-out_of_fuel : (c : ℕ) (cs : List ℕ) → expect c cs ≢ out_of_fuel
unfolding expect
expect-ne-out_of_fuel c cs h = elim (List-cases (skip_space cs)) [
  | inl e ↦ absurd (ground arith)
  | inr (d, r, e) ↦ ground arith
]

Read-cases {ℓ} :
    {A : Type ℓ} (r : Read A) → (r ≡ refused) ⊎ (r ≡ out_of_fuel) ⊎ ((a : A) × (r ≡ got a))
Read-cases refused = inl refl
Read-cases out_of_fuel = inr (inl refl)
Read-cases (got a) = inr (inr (a, refl))

pub expect-then {κ} :
    {B : Type κ} {k : ℕ} (c : ℕ) (cs : List ℕ) (next : List ℕ → Read (B × List ℕ))
    → ((rest : List ℕ) → length rest < length cs → Leaves k (next rest))
    → Leaves k (expect c cs >>= next)
expect-then c cs next step = elim (Read-cases (expect c cs)) [
  | inl e ↦ rw e gave_up
  | inr (inl e) ↦ absurd (expect-ne-out_of_fuel c cs e)
  | inr (inr (rest, e)) ↦ rw e (step rest (expect-lt c cs rest e))
]

>>=-assoc {ℓ κ μ} :
    {A : Type ℓ} {B : Type κ} {C : Type μ} (m : Read A) (f : A → Read B) (g : B → Read C)
    → (m >>= f >>= g) ≡ (m >>= λ a. f a >>= g)
>>=-assoc (got a) f g = refl
>>=-assoc refused f g = refl
>>=-assoc out_of_fuel f g = refl

pub separator-Leaves :
    (bracket : ℕ) (cs : List ℕ) {k : ℕ} {A : Type 0} (next : Bool × List ℕ → Read (A × List ℕ))
    → ((rest : List ℕ) → length rest < length cs → Leaves k (next (false, rest)))
    → ((rest : List ℕ) → length rest < length cs → Leaves k (next (true, rest)))
    → Leaves k (separator bracket cs >>= next)
unfolding separator
separator-Leaves bracket cs next last more = elim (Option-cases (closes bracket cs)) [
  | inr (rest, e) ↦ rw (separator, e) (last rest (closes-lt bracket cs rest e))
  | inl e ↦
      rw (separator, e, >>=-assoc (expect 44 cs) (λ rest. got (true, rest)) next)
        (expect-then 44 cs (λ rest. next (true, rest)) more)
]
