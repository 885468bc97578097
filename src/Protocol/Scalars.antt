-- ===== src/Protocol/Scalars.antt =====
-- The words and numbers that `value()` of `parseStrictJsonBytes` in scripts/host-helper-protocol.mjs
-- matches by a regular expression.
use repo_assessment_kit.Prelude.{
  ℕ, zero, suc, ◌+◌, ◌-◌, ◌*◌, Bool, true, false, ◌||◌, Option, none, some, List, [], ◌∷◌, ◌++◌,
  eqb, if◌then◌else◌,
}
use repo_assessment_kit.Json.{Number, natural, negative, Value, null, num, bool}
use repo_assessment_kit.Protocol.Grammar.{codes, is_digit}
use repo_assessment_kit.Protocol.Canonical.{is_safe_integer}
use repo_assessment_kit.Protocol.Reader.{Read, got, refused}

-- The digits at the front.
unfoldable pub digits : List ℕ → List ℕ × List ℕ
unfolding is_digit
digits [] = ([], [])
digits (c ∷ cs) = let (ds, rest) = digits cs in if is_digit c then (c ∷ ds, rest) else ([], c ∷ cs)

-- `(?:0|[1-9]\d*)`.
unfoldable pub whole_digits : List ℕ → Option (List ℕ × List ℕ)
unfolding digits
whole_digits [] = none
whole_digits (c ∷ cs) =
    if eqb c 48 then some (48 ∷ [], cs) else if is_digit c then some (digits (c ∷ cs)) else none

-- `(?:\.\d+)?` and `(?:[eE][+-]?\d+)?`, as the text that they match and the rest.
unfoldable pub some_digits : List ℕ → List ℕ → List ℕ → List ℕ × List ℕ
unfolding digits
some_digits mark whole cs =
    let (ds, rest) = digits cs in elim ds [ [] ↦ ([], whole) | d ∷ more ↦ (mark ++ d ∷ more, rest) ]

unfoldable pub fraction : List ℕ → List ℕ × List ℕ
unfolding some_digits
fraction (c ∷ cs) = if eqb c b'.' then some_digits (c ∷ []) (c ∷ cs) cs else ([], c ∷ cs)
fraction [] = ([], [])

unfoldable pub signed_digits : List ℕ → List ℕ → List ℕ → List ℕ × List ℕ
unfolding some_digits
signed_digits mark whole (s ∷ cs) =
    if eqb s b'+' || eqb s b'-'
    then some_digits (mark ++ s ∷ []) whole cs
    else some_digits mark whole (s ∷ cs)
signed_digits mark whole [] = ([], whole)

unfoldable pub exponent : List ℕ → List ℕ × List ℕ
unfolding signed_digits
exponent (c ∷ cs) =
    if eqb c b'e' || eqb c b'E' then signed_digits (c ∷ []) (c ∷ cs) cs else ([], c ∷ cs)
exponent [] = ([], [])

unfoldable pub digits_value : ℕ → List ℕ → ℕ
digits_value n [] = n
digits_value n (d ∷ ds) = digits_value (n * 10 + (d - 48)) ds

-- An integer. `-0` is a number that prints as `0`.
unfoldable pub integer : Bool → ℕ → Number
integer false n = natural n
integer true zero = natural zero
integer true (suc n) = negative n

-- The number of a token: its sign, its digits, and what stands behind them. `JSON.parse` reads a
-- token with a fraction or an exponent, as it does a larger integer, to the nearest double.
unfoldable pub token_number : (List ℕ → Number) → Bool → List ℕ → List ℕ → Number
unfolding digits_value integer
token_number nearest minus whole [] = integer minus (digits_value 0 whole)
token_number nearest minus whole (c ∷ cs) =
    nearest ((if minus then b'-' ∷ [] else []) ++ (whole ++ c ∷ cs))

unfoldable pub safe_number : Number → List ℕ → Read (Value × List ℕ)
safe_number n rest = if is_safe_integer n then got (num n, rest) else refused

unfoldable pub read_digits : (List ℕ → Number) → Bool → List ℕ → Read (Value × List ℕ)
unfolding whole_digits fraction exponent token_number safe_number
read_digits nearest minus cs = elim (whole_digits cs) [
  | none ↦ refused
  | some (whole, cs₁) ↦
      let (part, cs₂) = fraction cs₁ in
      let (power, cs₃) = exponent cs₂ in
      safe_number (token_number nearest minus whole (part ++ power)) cs₃
]

unfoldable pub read_number : (List ℕ → Number) → List ℕ → Read (Value × List ℕ)
unfolding read_digits
read_number nearest (c ∷ cs) =
    if eqb c b'-' then read_digits nearest true cs else read_digits nearest false (c ∷ cs)
read_number nearest [] = refused

-- The rest of the text after a word.
unfoldable pub after_word : List ℕ → List ℕ → Option (List ℕ)
after_word [] cs = some cs
after_word (w ∷ ws) [] = none
after_word (w ∷ ws) (c ∷ cs) = if eqb w c then after_word ws cs else none

-- `true`, `false`, `null` or a number.
unfoldable pub read_scalar : (List ℕ → Number) → List ℕ → Read (Value × List ℕ)
unfolding after_word read_number
read_scalar nearest cs = elim (after_word (codes "true") cs) [
  | some rest ↦ got (bool true, rest)
  | none ↦ elim (after_word (codes "false") cs) [
    | some rest ↦ got (bool false, rest)
    | none ↦ elim (after_word (codes "null") cs) [
      | some rest ↦ got (null, rest)
      | none ↦ read_number nearest cs
    ]
  ]
]
