-- ===== src/Protocol/Strict.antt =====
-- `parseStrictJsonBytes` of scripts/host-helper-protocol.mjs, on code points. The source walks over
-- UTF-16 code units; no test of it tells a unit of a pair from any other character above U+007F.
pub mod Members
pub mod Texts
pub mod Numbers
pub mod Lists
pub mod Parts
pub mod Sorted
pub mod RoundTrip
pub mod Leaves
pub mod Total
use repo_assessment_kit.Prelude.{
  ℕ, zero, suc, ◌+◌, ◌-◌, ◌*◌, ◌≡◌, refl, String, Bool, true, false, ◌&&◌, ◌||◌, Option, none, some,
  List, [], ◌∷◌, ◌++◌, ltb, leb, eqb, length, includes, arith, ◌==◌, if◌then◌else◌,
}
use repo_assessment_kit.Prelude.Result.{Result, ok, throws, auth_failed, thrown}
use repo_assessment_kit.Json.{
  Number, natural, negative, other, Value, null, str, num, bool, arr, obj, Items, no_items, item,
  Fields, no_fields, property,
}
use repo_assessment_kit.Protocol.Grammar.{codes, is_digit}
use repo_assessment_kit.Protocol.Canonical.{is_safe_integer}
use repo_assessment_kit.Protocol.Reader.{
  Read, got, refused, out_of_fuel, ◌>>=◌, skip_space, expect, closes, separator,
}
use repo_assessment_kit.Protocol.Strings.{read_string}
use repo_assessment_kit.Protocol.Scalars.{read_scalar}
use repo_assessment_kit.Protocol.Strict.Members.{set_member}

-- `value()`, for readers of what follows `[` and `{`.
unfoldable pub read_start :
    (List ℕ → Number)
    → (List ℕ → Read (Items × List ℕ))
    → (List ℕ → Read (Fields × List ℕ))
    → List ℕ
    → Read (Value × List ℕ)
unfolding read_string read_scalar
read_start nearest array object [] = refused
read_start nearest array object (c ∷ cs) =
    if eqb c 34
    then (read_string (c ∷ cs) >>= λ (s, rest). got (str s, rest))
    else if eqb c b'['
    then (array cs >>= λ (vs, rest). got (arr vs, rest))
    else if eqb c b'{'
    then (object cs >>= λ (fs, rest). got (obj fs, rest))
    else read_scalar nearest (c ∷ cs)

-- A name that has not occurred yet, and its colon.
unfoldable pub read_name : List String → List ℕ → Read (String × List ℕ)
unfolding read_string expect skip_space
read_name names cs = read_string (skip_space cs) >>= λ (name, rest).
    if includes names name then refused else (expect b':' rest >>= λ rest'. got (name, rest'))

-- An array after `[`, and an object after `{`, where the items and members are read by `more`.
unfoldable pub read_array : (List ℕ → Read (Items × List ℕ)) → List ℕ → Read (Items × List ℕ)
unfolding closes
read_array more cs = elim (closes b']' cs) [ some rest ↦ got (no_items, rest) | none ↦ more cs ]

unfoldable pub read_object : (List ℕ → Read (Fields × List ℕ)) → List ℕ → Read (Fields × List ℕ)
unfolding closes
read_object more cs = elim (closes b'}' cs) [ some rest ↦ got (no_fields, rest) | none ↦ more cs ]

module _ (nearest : List ℕ → Number) where
  unfoldable mutual
    unfolding skip_space separator read_start read_name read_array read_object set_member

    pub read_value : ℕ → List ℕ → Read (Value × List ℕ)
    read_value zero cs = out_of_fuel
    read_value (suc fuel) cs =
        read_start nearest (read_array (read_items fuel)) (read_object (read_members fuel []))
          (skip_space cs)

    pub read_items : ℕ → List ℕ → Read (Items × List ℕ)
    read_items zero cs = out_of_fuel
    read_items (suc fuel) cs = do
      (v, rest) ← read_value fuel cs
      (more, rest') ← separator b']' rest
      elim more [
        | false ↦ got (item v no_items, rest')
        | true ↦ read_items fuel rest' >>= λ (vs, rest''). got (item v vs, rest'')
      ]

    pub read_members : ℕ → List String → List ℕ → Read (Fields × List ℕ)
    read_members zero names cs = out_of_fuel
    read_members (suc fuel) names cs = do
      (name, rest) ← read_name names cs
      (v, rest') ← read_value fuel rest
      (more, rest'') ← separator b'}' rest'
      elim more [
        | false ↦ got (set_member name v no_fields, rest'')
        | true ↦ read_members fuel (name ∷ names) rest'' >>= λ (fs, rest₃).
            got (set_member name v fs, rest₃)
      ]

  -- White space alone may follow the value.
  unfoldable pub whole : Value × List ℕ → Read Value
  unfolding skip_space
  whole (v, rest) = elim (skip_space rest) [ [] ↦ got v | c ∷ cs ↦ refused ]

  -- The text of a frame, with two units of fuel for each character, and one more.
  unfoldable pub read_text : List ℕ → Read Value
  unfolding read_value whole
  read_text cs = read_value (2 * length cs + 1) cs >>= whole

  -- An end of fuel has no counterpart in the source.
  abbrev pub to_result : Read Value → Result Value
  to_result (got v) = ok v
  to_result refused = throws auth_failed
  to_result out_of_fuel = throws thrown

  -- `TextDecoder` with `fatal` gives no text for bytes that are not UTF-8, and throws a `TypeError`.
  unfoldable pub parse_strict_json_bytes : (List ℕ → Option (List ℕ)) → List ℕ → Result Value
  unfolding read_text
  parse_strict_json_bytes utf8_decode bytes = elim (utf8_decode bytes) [
    | none ↦ throws thrown
    | some cs ↦ to_result (read_text cs)
  ]
