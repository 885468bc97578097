-- ===== src/Protocol/Strings.antt =====
-- `string()` of `parseStrictJsonBytes` in scripts/host-helper-protocol.mjs, with what `JSON.parse` does
-- of the token that it has found.
use Prim.Native.Char.{Char, char, IsScalar}
use repo_assessment_kit.Prelude.{
  ℕ, zero, suc, ◌+◌, ◌-◌, ◌*◌, ◌≡◌, refl, String, Bool, true, false, ◌&&◌, ◌||◌, Option, none, some,
  List, [], ◌∷◌, ◌++◌, ltb, leb, eqb, arith, if◌then◌else◌,
}
use repo_assessment_kit.Protocol.Reader.{Read, got, refused, out_of_fuel, ◌>>=◌}

-- The characters up to the quotation mark that ends a string, and what follows it.
abbrev pub prepend : List ℕ → Read (List ℕ × List ℕ) → Read (List ℕ × List ℕ)
prepend front (got (inner, rest)) = got (front ++ inner, rest)
prepend front refused = refused
prepend front out_of_fuel = out_of_fuel

unfoldable pub scan_string : List ℕ → Read (List ℕ × List ℕ)
scan_string [] = refused
scan_string (c ∷ []) = if eqb c 34 then got ([], []) else refused
scan_string (c ∷ d ∷ cs) =
    let skipped = prepend (c ∷ d ∷ []) (scan_string cs) in
    let plain = prepend (c ∷ []) (scan_string (d ∷ cs)) in
    if eqb c 34
    then got ([], d ∷ cs)
    else if eqb c 92
    then skipped
    else if ltb c 32
    then refused
    else plain

-- `JSON.parse` of a string: its state between two characters. `hex k n` has read some digits of a
-- `\u` escape, with the value `n`, and wants `suc k` more.
pub data Escape : Type 0 where
  plain after_backslash : Escape
  hex : ℕ → ℕ → Escape

unfoldable pub simple_escape : ℕ → Option ℕ
simple_escape c =
    if eqb c 34 || eqb c 92 || eqb c b'/'
    then some c
    else if eqb c b'b'
    then some 8
    else if eqb c b't'
    then some 9
    else if eqb c b'n'
    then some 10
    else if eqb c b'f'
    then some 12
    else if eqb c b'r'
    then some 13
    else none

unfoldable pub hex_value : ℕ → Option ℕ
hex_value c =
    if leb 48 c && leb c 57
    then some (c - 48)
    else if leb 97 c && leb c 102
    then some (c - 87)
    else if leb 65 c && leb c 70
    then some (c - 55)
    else none

-- The character that the step emits, if it emits one, and the next state; `none` is a refusal.
unfoldable pub escape_step : Escape → ℕ → Option (List ℕ × Escape)
unfolding simple_escape hex_value
escape_step plain c = if eqb c 92 then some ([], after_backslash) else some (c ∷ [], plain)
escape_step after_backslash c =
    if eqb c b'u'
    then some ([], hex 3 0)
    else elim (simple_escape c) [ none ↦ none | some d ↦ some (d ∷ [], plain) ]
escape_step (hex zero n) c = elim (hex_value c) [
  | none ↦ none
  | some d ↦ some ((n * 16 + d) ∷ [], plain)
]
escape_step (hex (suc k) n) c = elim (hex_value c) [
  | none ↦ none
  | some d ↦ some ([], hex k (n * 16 + d))
]

abbrev pub emit : List ℕ → Option (List ℕ) → Option (List ℕ)
emit front none = none
emit front (some cs) = some (front ++ cs)

unfoldable pub unescape : Escape → List ℕ → Option (List ℕ)
unfolding escape_step
unescape plain [] = some []
unescape after_backslash [] = none
unescape (hex k n) [] = none
unescape state (c ∷ cs) = elim (escape_step state c) [
  | none ↦ none
  | some (front, state') ↦ emit front (unescape state' cs)
]

-- Two escapes that form a surrogate pair stand for one character.
unfoldable pub is_high : ℕ → Bool
is_high c = leb 0xd800 c && leb c 0xdbff

is_low : ℕ → Bool
is_low c = leb 0xdc00 c && leb c 0xdfff

unfoldable pub join_pairs : Option ℕ → List ℕ → List ℕ
unfolding is_high is_low
join_pairs none [] = []
join_pairs (some h) [] = h ∷ []
join_pairs none (c ∷ cs) =
    let held = join_pairs (some c) cs in
    let kept = c ∷ join_pairs none cs in if is_high c then held else kept
join_pairs (some h) (c ∷ cs) =
    let pair = (0x10000 + (h - 0xd800) * 0x400 + (c - 0xdc00)) ∷ join_pairs none cs in
    let again = h ∷ join_pairs (some c) cs in
    let alone = h ∷ c ∷ join_pairs none cs in
    if is_low c then pair else if is_high c then again else alone

-- A text has no lone surrogates.
unfoldable pub is_scalar : ℕ → Bool
is_scalar n = ltb n 55296 || ltb 57343 n && ltb n 1114112

pub is_scalar→IsScalar : (n : ℕ) → is_scalar n ≡ true → IsScalar n
unfolding is_scalar
is_scalar→IsScalar n h = ground arith

unfoldable pub checked_char : (n : ℕ) (b : Bool) → (b ≡ true → IsScalar n) → Option Char
checked_char n true h = some (char n (h refl))
checked_char n false h = none

unfoldable pub char_of : ℕ → Option Char
unfolding checked_char is_scalar→IsScalar
char_of n = checked_char n (is_scalar n) (is_scalar→IsScalar n)

-- The text of the characters, if none is a surrogate.
unfoldable pub text_of : List ℕ → Option String
unfolding char_of
text_of [] = some String.[]
text_of (c ∷ cs) = elim (char_of c) [
  | none ↦ none
  | some ch ↦ elim (text_of cs) [ none ↦ none | some s ↦ some (String.◌∷◌ ch s) ]
]

-- `string()`, after its first quotation mark.
unfoldable pub finish_string : List ℕ × List ℕ → Read (String × List ℕ)
unfolding unescape join_pairs text_of
finish_string (inner, rest) = elim (unescape plain inner) [
  | none ↦ refused
  | some units ↦ elim (text_of (join_pairs none units)) [ none ↦ refused | some s ↦ got (s, rest) ]
]

unfoldable pub read_string : List ℕ → Read (String × List ℕ)
unfolding scan_string finish_string
read_string (c ∷ cs) = if eqb c 34 then scan_string cs >>= finish_string else refused
read_string [] = refused
