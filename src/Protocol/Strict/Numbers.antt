-- ===== src/Protocol/Strict/Numbers.antt =====
-- An integer that `canonicalJson` of scripts/host-helper-protocol.mjs prints is read back by
-- `parseStrictJsonBytes`.
use text.Mathlib.TextLemmas.{cons-append, nil-append}
use native.Mathlib.Numerals.{add-one}
use Prim.Native.String
use repo_assessment_kit.Prelude.{
  ℕ, zero, suc, ◌+◌, ◌/◌, ◌%◌, ◌≤◌, ◌<◌, ◌≡◌, refl, ap, ◌∙◌, String, Bool, true, false, ◌||◌, some,
  List, [], ◌∷◌, ◌++◌, eqb, ltb, every, &&-eq-true, arith, Bool-cases, inl, inr,
}
use repo_assessment_kit.Json.{Number, natural, negative, other, num}
use repo_assessment_kit.Json.Text.{decimal, digit, decimal_from, number_text}
use repo_assessment_kit.Protocol.Grammar.{codes, is_digit}
use repo_assessment_kit.Protocol.Canonical.{is_safe_integer}
use repo_assessment_kit.Protocol.Reader.{got}
use repo_assessment_kit.Protocol.Scalars.{
  digits, whole_digits, fraction, exponent, digits_value, token_number, safe_number, integer,
  read_digits, read_number,
}

codes-append : (s t : String) → codes (String.◌++◌ s t) ≡ codes s ++ codes t
codes-append String.[] t = rw (nil-append t)
codes-append (String.◌∷◌ c s) t = rw (cons-append c s t, codes-append s t)

codes-digit : (n : ℕ) → n < 10 → codes (digit n) ≡ (48 + n) ∷ []
unfolding digit
codes-digit zero h = refl
codes-digit (suc zero) h = refl
codes-digit (suc (suc zero)) h = refl
codes-digit (suc (suc (suc zero))) h = refl
codes-digit (suc (suc (suc (suc zero)))) h = refl
codes-digit (suc (suc (suc (suc (suc zero))))) h = refl
codes-digit (suc (suc (suc (suc (suc (suc zero)))))) h = refl
codes-digit (suc (suc (suc (suc (suc (suc (suc zero))))))) h = refl
codes-digit (suc (suc (suc (suc (suc (suc (suc (suc zero)))))))) h = refl
codes-digit (suc (suc (suc (suc (suc (suc (suc (suc (suc n))))))))) h = ground arith

-- The digits of `n` before other digits: the first is zero only for 0, and the value is as it should
-- be.
record Printed (n : ℕ) (cs tail : List ℕ) : Type 0 where
  first : ℕ
  others : List ℕ
  shape : cs ≡ first ∷ others
  digit_first : is_digit first ≡ true
  digits_others : every is_digit others ≡ true
  no_zero : 0 < n → eqb first 48 ≡ false
  zero_alone : n ≡ 0 → (first ≡ 48) × (others ≡ tail)
  value : digits_value 0 cs ≡ digits_value n tail

digit_before : (n : ℕ) (s : String) → n < 10 → codes (String.◌++◌ (digit n) s) ≡ (48 + n) ∷ codes s
digit_before n s h = rw (codes-append (digit n) s, codes-digit n h)

decimal_from-Printed :
    (fuel n : ℕ) (s : String)
    → n < fuel
    → every is_digit (codes s) ≡ true
    → Printed n (codes (decimal_from fuel n s)) (codes s)
unfolding decimal_from
decimal_from-Printed zero n s h all = elim h [ ]
decimal_from-Printed (suc fuel) n s h all = elim (Bool-cases (ltb n 10)) [
  | inl last ↦
      let small : n % 10 ≡ n = ground arith in
      let low : n < 10 = ground arith in
      let shape : codes (String.◌++◌ (digit (n % 10)) s) ≡ (48 + n) ∷ codes s =
        rw small (digit_before n s low) in
      rw (last, shape)
        (record {
          first = 48 + n;
          others = codes s;
          shape = refl;
          digit_first = unfold is_digit in ground arith;
          digits_others = all;
          no_zero = λ p. ground arith;
          zero_alone = λ p. (omega arith, refl);
          value = unfold digits_value in ap (λ v. digits_value v (codes s)) (omega arith);
        })
  | inr more ↦
      let shape : codes (String.◌++◌ (digit (n % 10)) s) ≡ (48 + n % 10) ∷ codes s =
        digit_before (n % 10) s (omega arith) in
      let big : 10 ≤ n = ground arith in
      let digit_ok : is_digit (48 + n % 10) ≡ true = unfold is_digit in ground arith in
      let p =
        decimal_from-Printed fuel (n / 10) (String.◌++◌ (digit (n % 10)) s) (omega arith)
          (rw (shape, digit_ok) all) in
      rw more (record {
        first = p.first;
        others = p.others;
        shape = p.shape;
        digit_first = p.digit_first;
        digits_others = p.digits_others;
        no_zero = λ q. p.no_zero (omega arith);
        zero_alone = λ q. absurd (omega arith);
        value =
            p.value
            ∙ rw shape (unfold digits_value in ap (λ v. digits_value v (codes s)) (omega arith));
      })
]

-- The digits of a text, in front of something that is not a digit.
NoDigit : List ℕ → Type 0
NoDigit rest = digits rest ≡ ([], rest)

digits-append :
    (ds rest : List ℕ)
    → every is_digit ds ≡ true
    → digits rest ≡ ([], rest)
    → digits (ds ++ rest) ≡ (ds, rest)
unfolding digits
digits-append [] rest all stop = stop
digits-append (d ∷ ds) rest all stop =
    let (h, more) = &&-eq-true (is_digit d) (every is_digit ds) all in
    rw (digits-append ds rest more stop, h)

-- What may follow a value: nothing of a number.
pub record Ends (rest : List ℕ) : Type 0 where
  pub no_digit : digits rest ≡ ([], rest)
  pub no_fraction : fraction rest ≡ ([], rest)
  pub no_exponent : exponent rest ≡ ([], rest)

whole_digits-Printed :
    (n : ℕ) (cs rest : List ℕ)
    → Printed n cs []
    → digits rest ≡ ([], rest)
    → whole_digits (cs ++ rest) ≡ some (cs, rest)
unfolding whole_digits
whole_digits-Printed zero cs rest p stop = let (f, o) = p.zero_alone refl in rw (p.shape, f, o)
whole_digits-Printed (suc n) cs rest p stop = rw (
  p.shape,
  p.no_zero (omega arith),
  p.digit_first,
  digits-append p.others rest p.digits_others stop,
)

decimal-Printed : (n : ℕ) → Printed n (codes (decimal n)) []
unfolding decimal
decimal-Printed n = decimal_from-Printed (suc n) n "" (omega arith) refl

module _ (nearest : List ℕ → Number) where
  read_digits-decimal :
      (minus : Bool) (n : ℕ) (rest : List ℕ)
      → Ends rest
      → read_digits nearest minus (codes (decimal n) ++ rest) ≡ safe_number (integer minus n) rest
  unfolding read_digits token_number
  read_digits-decimal minus n rest ends =
      let p = decimal-Printed n in
      let value : digits_value 0 (codes (decimal n)) ≡ n = p.value ∙ unfold digits_value in refl in
      rw (
        read_digits,
        whole_digits-Printed n (codes (decimal n)) rest p ends.no_digit,
        ends.no_fraction,
        ends.no_exponent,
        value,
      )

  natural-decimal : (n : ℕ) → codes (number_text (natural n)) ≡ codes (decimal n)
  unfolding number_text
  natural-decimal n = refl

  negative-decimal : (n : ℕ) → codes (number_text (negative n)) ≡ b'-' ∷ codes (decimal (suc n))
  unfolding number_text
  negative-decimal n = rw add-one (codes-append "-" (decimal (suc n)))

  digit-not_minus : (c : ℕ) → is_digit c ≡ true → eqb c b'-' ≡ false
  unfolding is_digit
  digit-not_minus c h = ground arith

  unsigned :
      (n : ℕ) (rest : List ℕ)
      → read_number nearest (codes (decimal n) ++ rest)
        ≡ read_digits nearest false (codes (decimal n) ++ rest)
  unfolding read_number
  unsigned n rest = let p = decimal-Printed n in rw (p.shape, digit-not_minus p.first p.digit_first)

  -- A safe integer is read back from its decimal text.
  pub read_number-number_text :
      (n : Number) (rest : List ℕ)
      → is_safe_integer n ≡ true
      → Ends rest
      → read_number nearest (codes (number_text n) ++ rest) ≡ got (num n, rest)
  unfolding safe_number integer
  read_number-number_text (natural n) rest safe ends =
      rw (natural-decimal n, unsigned n rest, read_digits-decimal false n rest ends, safe)
  read_number-number_text (negative n) rest safe ends =
      rw (negative-decimal n)
        (unfold read_number in rw (read_digits-decimal true (suc n) rest ends, safe))
  read_number-number_text (other s) rest safe ends = unfold is_safe_integer in cc

  -- A printed number begins with a digit or a minus sign.
  pub number_text-front :
      (n : Number)
      → is_safe_integer n ≡ true
      → (c : ℕ) × (cs : List ℕ) × (codes (number_text n) ≡ c ∷ cs)
        × ((is_digit c || eqb c b'-') ≡ true)
  unfolding is_digit
  number_text-front (natural n) safe =
      let p = decimal-Printed n in
      (p.first, p.others, natural-decimal n ∙ p.shape, rw p.digit_first)
  number_text-front (negative n) safe = (b'-', codes (decimal (suc n)), negative-decimal n, refl)
  number_text-front (other s) safe = unfold is_safe_integer in cc
