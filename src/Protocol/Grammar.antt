-- ===== src/Protocol/Grammar.antt =====
-- The regular expressions and the typed tests of scripts/host-helper-protocol.mjs. A regular
-- expression is a test on the code points of a text.
use Prim.Native.Char.{code}
use repo_assessment_kit.Prelude.{
  ℕ, ◌+◌, String, Bool, true, false, ◌&&◌, ◌||◌, Option, none, some, List, [], ◌∷◌, leb, ltb, eqb,
  length, every, if◌then◌else◌,
}
use repo_assessment_kit.Json.{natural, Value, str, num, bool, arr, items}

-- What Node provides: `Date.parse` in milliseconds since the least time of a `Date`, with `none` for
-- `NaN`; the digest and the keyed digest of a text (its code points) in lower-case hexadecimal, the
-- key being bytes; and the WHATWG parser of URLs.
pub record Url : Type 0 where
  pub protocol : String
  pub origin : String
  pub username : String
  pub password : String

pub record Platform : Type 0 where
  pub date_parse : String → Option ℕ
  pub sha256_hex : List ℕ → String
  pub hmac_hex : List ℕ → List ℕ → String
  pub parse_url : String → Option Url

-- The code points of a text.
abbrev pub codes : String → List ℕ
codes String.[] = []
codes (String.◌∷◌ c s) = code c ∷ codes s

-- `text.length`: a code point above U+FFFF counts as two.
abbrev units_of : List ℕ → ℕ
units_of [] = 0
units_of (c ∷ cs) = (if ltb c 0x10000 then 1 else 2) + units_of cs

unfoldable pub text_length : String → ℕ
text_length s = units_of (codes s)

between : ℕ → ℕ → ℕ → Bool
between lo hi c = leb lo c && leb c hi

unfoldable pub is_alphanumeric : ℕ → Bool
unfolding between
is_alphanumeric c = between b'A' b'Z' c || between b'a' b'z' c || between b'0' b'9' c

-- `[A-Za-z0-9._:-]`.
unfoldable pub is_id_char : ℕ → Bool
unfolding is_alphanumeric
is_id_char c = is_alphanumeric c || eqb c b'.' || eqb c b'_' || eqb c b':' || eqb c b'-'

unfoldable pub is_digit : ℕ → Bool
unfolding between
is_digit c = between b'0' b'9' c

-- `[a-f0-9]`.
unfoldable pub is_hex : ℕ → Bool
unfolding between
is_hex c = between b'a' b'f' c || between b'0' b'9' c

-- `/^[A-Za-z0-9][A-Za-z0-9._:-]{0,127}$/u`.
unfoldable pub matches_safe_id : List ℕ → Bool
unfolding is_id_char
matches_safe_id [] = false
matches_safe_id (c ∷ cs) = is_alphanumeric c && every is_id_char cs && leb (length cs) 127

-- `/^(?:0|[1-9]\d*)$/u`.
unfoldable pub matches_decimal : List ℕ → Bool
unfolding is_digit
matches_decimal [] = false
matches_decimal (c ∷ cs) =
    if eqb c b'0' then eqb (length cs) 0 else between b'1' b'9' c && every is_digit cs

-- `/^[a-f0-9]{64}$/u`.
unfoldable pub matches_hex64 : List ℕ → Bool
unfolding is_hex
matches_hex64 cs = every is_hex cs && eqb (length cs) 64

-- A literal prefix before the rest of an expression.
unfoldable pub after_prefix : List ℕ → (List ℕ → Bool) → List ℕ → Bool
after_prefix [] rest cs = rest cs
after_prefix (p ∷ ps) rest [] = false
after_prefix (p ∷ ps) rest (c ∷ cs) = eqb p c && after_prefix ps rest cs

-- `/^sha256:[a-f0-9]{64}$/u`.
unfoldable pub matches_digest : List ℕ → Bool
unfolding after_prefix matches_hex64
matches_digest cs = after_prefix (codes "sha256:") matches_hex64 cs

-- `/@sha256:[a-f0-9]{64}$/u`, which may begin anywhere in the text.
unfoldable pub matches_image : List ℕ → Bool
unfolding after_prefix matches_hex64
matches_image [] = false
matches_image (c ∷ cs) = after_prefix (codes "@sha256:") matches_hex64 (c ∷ cs) || matches_image cs

-- `typeof value === "string" && test(value)`.
abbrev pub text_and : (String → Bool) → Value → Bool
text_and test (str s) = test s
text_and test _ = false

unfoldable pub safe_id : Value → Bool
unfolding matches_safe_id
safe_id v = text_and (λ s. matches_safe_id (codes s)) v

-- `Array.isArray(value) && value.every(test)`.
abbrev pub array_of : (Value → Bool) → Value → Bool
array_of test (arr vs) = every test (items vs)
array_of test _ = false

unfoldable pub safe_ids : Value → Bool
unfolding safe_id
safe_ids v = array_of safe_id v

unfoldable pub digest : Value → Bool
unfolding matches_digest
digest v = text_and (λ s. matches_digest (codes s)) v

unfoldable pub decimal : Value → Bool
unfolding matches_decimal
decimal v = text_and (λ s. matches_decimal (codes s)) v

-- `Number.isFinite(Date.parse(text))`.
abbrev pub is_date : Platform → String → Bool
is_date node s = elim (node.date_parse s) [ none ↦ false | some _ ↦ true ]

unfoldable pub timestamp : Platform → Value → Bool
timestamp node v = text_and (is_date node) v

unfoldable pub boolean : Value → Bool
boolean (bool b) = true
boolean _ = false

-- A text whose length lies between two bounds.
unfoldable pub text_within : ℕ → ℕ → Value → Bool
unfolding text_length between
text_within lo hi v = text_and (λ s. between lo hi (text_length s)) v

unfoldable pub any_text : Value → Bool
any_text v = text_and (λ s. true) v

unfoldable pub strings : Value → Bool
unfolding text_within
strings v = array_of (text_within 0 4096) v

-- `Number.isSafeInteger(value) && lo <= value && value <= hi`, for bounds that are natural numbers.
unfoldable pub safe_integer_within : ℕ → ℕ → Value → Bool
unfolding between
safe_integer_within lo hi (num (natural n)) = between lo hi n && leb n 9007199254740991
safe_integer_within lo hi _ = false

abbrev pub max_safe_integer : ℕ
max_safe_integer = 9007199254740991
