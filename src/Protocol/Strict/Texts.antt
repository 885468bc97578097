-- ===== src/Protocol/Strict/Texts.antt =====
-- A string that `canonicalJson` of scripts/host-helper-protocol.mjs prints is read back by
-- `parseStrictJsonBytes`.
use Prim.Native.Char.{Char, char, code, IsScalar}
use mathlib.Core.List.{append_assoc}
use text.Mathlib.TextEquality.{Char-path}
use repo_assessment_kit.Prelude.{
  ℕ, ◌+◌, ◌-◌, ◌*◌, ◌/◌, ◌%◌, ◌≤◌, ◌<◌, ◌≡◌, refl, ap, String, Bool, true, false, Option, none,
  some, List, [], ◌∷◌, ◌++◌, eqb, ltb, arith, Bool-cases, inl, inr,
}
use repo_assessment_kit.Protocol.Grammar.{codes}
use repo_assessment_kit.Protocol.Canonical.{escaped, escaped_all, quoted, hex_digit}
use repo_assessment_kit.Protocol.Reader.{Read, got}
use repo_assessment_kit.Protocol.Strings.{
  prepend, scan_string, plain, escape_step, emit, unescape, is_high, join_pairs, is_scalar, char_of,
  checked_char, text_of, finish_string, read_string, hex_value, simple_escape,
}

-- The three forms in which `JSON.stringify` writes a character.
data Written (c : ℕ) : List ℕ → Type 0 where
  itself : 32 ≤ c → eqb c 34 ≡ false → eqb c 92 ≡ false → Written c (c ∷ [])
  short : (x : ℕ) → eqb x b'u' ≡ false → simple_escape x ≡ some c → Written c (92 ∷ x ∷ [])
  long :
      (x y d e : ℕ)
      → hex_value x ≡ some d
      → hex_value y ≡ some e
      → d * 16 + e ≡ c
      → Written c (92 ∷ b'u' ∷ 48 ∷ 48 ∷ x ∷ y ∷ [])

hex_value-hex_digit : (n : ℕ) → n < 16 → hex_value (hex_digit n) ≡ some n
unfolding hex_value hex_digit
hex_value-hex_digit n h = ground arith

shortened : (c x : ℕ) → eqb x b'u' ≡ false → simple_escape x ≡ some c → Written c (92 ∷ x ∷ [])
shortened c x h e = short x h e

escaped-Written : (c : ℕ) → Written c (escaped c)
unfolding escaped simple_escape
escaped-Written c = elim (Bool-cases (eqb c 34)) [
  | inl e ↦ rw e (short 34 refl (ground arith))
  | inr quote ↦ rw quote (elim (Bool-cases (eqb c 92)) [
    | inl e ↦ rw e (short 92 refl (ground arith))
    | inr backslash ↦ rw backslash (elim (Bool-cases (eqb c 8)) [
      | inl e ↦ rw e (short b'b' refl (ground arith))
      | inr e₁ ↦ rw e₁ (elim (Bool-cases (eqb c 9)) [
        | inl e ↦ rw e (short b't' refl (ground arith))
        | inr e₂ ↦ rw e₂ (elim (Bool-cases (eqb c 10)) [
          | inl e ↦ rw e (short b'n' refl (ground arith))
          | inr e₃ ↦ rw e₃ (elim (Bool-cases (eqb c 12)) [
            | inl e ↦ rw e (short b'f' refl (ground arith))
            | inr e₄ ↦ rw e₄ (elim (Bool-cases (eqb c 13)) [
              | inl e ↦ rw e (short b'r' refl (ground arith))
              | inr e₅ ↦ rw e₅ (elim (Bool-cases (ltb c 32)) [
                | inl low ↦ rw low (
                    long (hex_digit (c / 16)) (hex_digit (c % 16)) (c / 16) (c % 16)
                      (hex_value-hex_digit (c / 16) (ground arith))
                      (hex_value-hex_digit (c % 16) (omega arith)) (omega arith))
                | inr high ↦ rw high (itself (ground arith) quote backslash)
              ])
            ])
          ])
        ])
      ])
    ])
  ])
]

hex_value-ordinary :
    (x d : ℕ) → hex_value x ≡ some d → (eqb x 34 ≡ false) × (eqb x 92 ≡ false) × (ltb x 32 ≡ false)
unfolding hex_value
hex_value-ordinary x d h = (ground arith, ground arith, ground arith)

prepend-long :
    (x y : ℕ) (r : Read (List ℕ × List ℕ))
    → prepend
        (92 ∷ b'u' ∷ [])
        (prepend (48 ∷ []) (prepend (48 ∷ []) (prepend (x ∷ []) (prepend (y ∷ []) r))))
      ≡ prepend (92 ∷ b'u' ∷ 48 ∷ 48 ∷ x ∷ y ∷ []) r
prepend-long x y (got (inner, rest)) = refl
prepend-long x y Read.refused = refl
prepend-long x y Read.out_of_fuel = refl

-- `string()` finds the end of a printed character, and `JSON.parse` reads it.
scan-Written :
    (c : ℕ) (w : List ℕ) (t : ℕ) (ts : List ℕ)
    → Written c w
    → scan_string (w ++ t ∷ ts) ≡ prepend w (scan_string (t ∷ ts))
unfolding scan_string hex_value
scan-Written c w t ts (itself low quote backslash) = ground arith
scan-Written c w t ts (short x h e) = ground arith
scan-Written c w t ts (long x y d e hx hy sum) =
    let (x₁, x₂, x₃) = hex_value-ordinary x d hx in
    let (y₁, y₂, y₃) = hex_value-ordinary y e hy in
    rw (x₁, x₂, x₃, y₁, y₂, y₃) (prepend-long x y (scan_string (t ∷ ts)))

emit-nil : (r : Option (List ℕ)) → emit [] r ≡ r
emit-nil none = refl
emit-nil (some cs) = refl

unescape-Written :
    (c : ℕ) (w ts : List ℕ)
    → Written c w
    → unescape plain (w ++ ts) ≡ emit (c ∷ []) (unescape plain ts)
unfolding unescape escape_step
unescape-Written c w ts (itself low quote backslash) = rw (unescape, backslash)
unescape-Written c w ts (short x h e) = rw (unescape, h, e, emit-nil)
unescape-Written c w ts (long x y d e hx hy sum) =
    let total : (((0 * 16 + (48 - 48)) * 16 + (48 - 48)) * 16 + d) * 16 + e ≡ c = omega arith in
    rw (unescape, hx, hy, total, emit-nil, emit-nil, emit-nil, emit-nil, emit-nil)

-- A printed character, and so a printed text with its closing quotation mark, is not empty.
Starts : List ℕ → Type 0
Starts us = (t : ℕ) × (ts : List ℕ) × (us ≡ t ∷ ts)

Written-Starts : (c : ℕ) (w ts : List ℕ) → Written c w → Starts (w ++ ts)
unfolding Starts
Written-Starts c w ts (itself low quote backslash) = (c, ts, refl)
Written-Starts c w ts (short x h e) = (92, x ∷ ts, refl)
Written-Starts c w ts (long x y d e hx hy sum) = (92, b'u' ∷ 48 ∷ 48 ∷ x ∷ y ∷ ts, refl)

closed-Starts : (cs rest : List ℕ) → Starts (escaped_all cs ++ 34 ∷ rest)
unfolding escaped_all Starts
closed-Starts [] rest = (34, rest, refl)
closed-Starts (c ∷ cs) rest =
    rw (append_assoc (escaped c) (escaped_all cs) (34 ∷ rest))
      (Written-Starts c (escaped c) (escaped_all cs ++ 34 ∷ rest) (escaped-Written c))

scan-Starts :
    (c : ℕ) (w us : List ℕ)
    → Written c w
    → Starts us
    → scan_string (w ++ us) ≡ prepend w (scan_string us)
unfolding Starts
scan-Starts c w us written (t, ts, e) = rw e (scan-Written c w t ts written)

-- The whole of a printed text, up to its closing quotation mark.
scan-escaped_all :
    (cs rest : List ℕ) → scan_string (escaped_all cs ++ 34 ∷ rest) ≡ got (escaped_all cs, rest)
unfolding scan_string escaped_all
scan-escaped_all [] [] = refl
scan-escaped_all [] (c ∷ rest) = refl
scan-escaped_all (c ∷ cs) rest = rw (
  append_assoc (escaped c) (escaped_all cs) (34 ∷ rest),
  scan-Starts c (escaped c) (escaped_all cs ++ 34 ∷ rest) (escaped-Written c)
      (closed-Starts cs rest),
  scan-escaped_all cs rest,
)

unescape-escaped_all : (cs : List ℕ) → unescape plain (escaped_all cs) ≡ some cs
unfolding escaped_all
unescape-escaped_all [] = unfold unescape in refl
unescape-escaped_all (c ∷ cs) =
    rw
      (unescape-Written c (escaped c) (escaped_all cs) (escaped-Written c), unescape-escaped_all cs)

-- A text has no surrogates, and its characters are found again.
is_scalar-code : (ch : Char) → is_scalar (code ch) ≡ true
unfolding is_scalar
is_scalar-code (char n p) = ground arith

found :
    (ch : Char) (b : Bool) (proof : b ≡ true → IsScalar (code ch))
    → b ≡ true
    → checked_char (code ch) b proof ≡ some ch
unfolding checked_char
found ch true proof h = ap some (Char-path (char (code ch) (proof refl)) ch refl)
found ch false proof h = cc

char_of-code : (ch : Char) → char_of (code ch) ≡ some ch
unfolding char_of checked_char
char_of-code ch = found ch (is_scalar (code ch)) _ (is_scalar-code ch)

text_of-codes : (s : String) → text_of (codes s) ≡ some s
unfolding text_of
text_of-codes String.[] = refl
text_of-codes (String.◌∷◌ c s) = rw (text_of, char_of-code c, text_of-codes s)

scalar-not_high : (n : ℕ) → is_scalar n ≡ true → is_high n ≡ false
unfolding is_scalar is_high
scalar-not_high n h = ground arith

join_pairs-codes : (s : String) → join_pairs none (codes s) ≡ codes s
unfolding join_pairs is_high
join_pairs-codes String.[] = refl
join_pairs-codes (String.◌∷◌ c s) =
    rw (scalar-not_high (code c) (is_scalar-code c), join_pairs-codes s)

-- The name or text that `JSON.stringify` prints is read back, whatever follows it.
pub read_string-quoted :
    (s : String) (rest : List ℕ) → read_string (quoted s ++ rest) ≡ got (s, rest)
unfolding read_string quoted finish_string
read_string-quoted s rest = rw (
  append_assoc (escaped_all (codes s)) (34 ∷ []) rest,
  scan-escaped_all (codes s) rest,
  finish_string,
  unescape-escaped_all (codes s),
  join_pairs-codes s,
  text_of-codes s,
)
