-- ===== src/Protocol/Frames/Tests.antt =====
-- A frame of scripts/host-helper-protocol.mjs in two chunks.
use repo_assessment_kit.Protocol.Strict.Total.{read_text-ne-out_of_fuel}
use repo_assessment_kit.Protocol.Strict.{read_text}
use repo_assessment_kit.Protocol.Reader.{out_of_fuel}
use repo_assessment_kit.Prelude.{
  ℕ, String, ◌≡◌, ◌≢◌, refl, false, ◌==◌, eq_iff, Option, none, some, every, ltb, if◌then◌else◌,
  List, [], ◌∷◌, arith,
}
use repo_assessment_kit.Prelude.Result.{Result, ok, throws, auth_failed}
use repo_assessment_kit.Json.{
  Number, natural, Value, null, str, num, arr, obj, item, no_items, property, no_fields,
}
use repo_assessment_kit.Protocol.Grammar.{codes, is_digit}
use repo_assessment_kit.Protocol.Canonical.{canonical_json, is_safe_integer}
use repo_assessment_kit.Protocol.Strict.{parse_strict_json_bytes}
use repo_assessment_kit.Protocol.Strict.Members.{array_index}
use repo_assessment_kit.Protocol.Strict.RoundTrip.{IsNamed, sorted, parse_strict-canonical}
use repo_assessment_kit.Protocol.Frames.{new_decoder, encode_frame, feed_all}
use repo_assessment_kit.Protocol.Frames.Chunks.{flat, done}
use repo_assessment_kit.Protocol.Frames.Transmit.{encode-decode}

abbrev nearest : List ℕ → Number
nearest text = Number.other "0.5"

abbrev sample : Value
sample = obj (
    property "b" (arr (item (num (natural 12)) (item (str "x\"y") no_items)))
      (property "a" null no_fields))

abbrev sample_text : List ℕ
sample_text = codes "{\"a\":null,\"b\":[12,\"x\\\"y\"]}"

sample_printed : canonical_json sample ≡ ok sample_text
unfolding canonical_json
sample_printed = refl

-- UTF-8, as far as a byte is a character.
abbrev ascii : List ℕ → Option (List ℕ)
ascii bytes = if every (λ b. ltb b 128) bytes then some bytes else none

differ : (s t : String) → (s == t) ≡ false → s ≢ t
differ s t h e = ground (arith, eq_iff s t)

plain_a : array_index (codes "a") ≡ none
unfolding array_index is_digit
plain_a = refl

plain_b : array_index (codes "b") ≡ none
unfolding array_index is_digit
plain_b = refl

sample-IsNamed : IsNamed sample
sample-IsNamed = (
  ((differ "a" "b" refl, tt), (tt, tt)),
  (
    (differ "b" "__proto__" refl, plain_b),
    (tt, (tt, tt)),
    ((differ "a" "__proto__" refl, plain_a), tt, tt),
  ),
)

parse_strict-canonical_example :
    parse_strict_json_bytes nearest (λ bytes. some bytes) sample_text ≡ ok (sorted sample)
parse_strict-canonical_example =
    parse_strict-canonical nearest sample sample_text sample_text (λ bytes. some bytes)
      sample-IsNamed sample_printed refl

-- The header and the first bytes of the body, then nothing, then the rest.
abbrev first_chunk : List ℕ
first_chunk = 0 ∷ 0 ∷ 0 ∷ 26 ∷ codes "{\"a\":nu"

abbrev chunks : List (List ℕ)
chunks = first_chunk ∷ [] ∷ codes "ll,\"b\":[12,\"x\\\"y\"]}" ∷ []

sample_framed : encode_frame (λ text. text) sample ≡ ok (flat chunks)
unfolding encode_frame canonical_json
sample_framed = refl

encode-decode_example : feed_all nearest ascii new_decoder chunks ≡ ok (done, sorted sample ∷ [])
encode-decode_example =
    encode-decode nearest (λ text. text) ascii sample sample_text (flat chunks) chunks
      sample-IsNamed sample_printed refl refl sample_framed refl

-- An object with one name twice, a number that is no integer, and an unfinished text are refused.
refused_text : List ℕ → Result Value
refused_text text = parse_strict_json_bytes nearest (λ bytes. some bytes) text

refused_duplicate : refused_text (codes "{\"a\":1, \"a\":2}") ≡ throws auth_failed
unfolding refused_text parse_strict_json_bytes is_safe_integer
refused_duplicate = refl

refused_fraction : refused_text (codes "[0.5]") ≡ throws auth_failed
unfolding refused_text parse_strict_json_bytes is_safe_integer
refused_fraction = refl

refused_rest : refused_text (codes "true false") ≡ throws auth_failed
unfolding refused_text parse_strict_json_bytes
refused_rest = refl

-- An array that is not closed.
abbrev unfinished : List ℕ
unfinished = codes "[1, {\"a\": [true]}"

read_text-ne-out_of_fuel_example : read_text nearest unfinished ≢ out_of_fuel
read_text-ne-out_of_fuel_example = read_text-ne-out_of_fuel nearest unfinished
