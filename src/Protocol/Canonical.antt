-- ===== src/Protocol/Canonical.antt =====
-- `canonicalJson` and `digestCanonical` of scripts/host-helper-protocol.mjs, as the code points of the
-- text that they build.
use repo_assessment_kit.Prelude.{
  ℕ, ◌+◌, ◌/◌, ◌%◌, String, Bool, true, false, List, [], ◌∷◌, ◌++◌, map, ltb, leb, eqb,
  if◌then◌else◌,
}
use repo_assessment_kit.Prelude.Result.{Result, ok, throws, auth_failed, ◌>>=◌}
use repo_assessment_kit.Json.{
  Number, natural, negative, other, Value, undefined, null, bool, num, str, arr, obj, Items,
  no_items, item, Fields, no_fields, property,
}
use repo_assessment_kit.Json.Text.{number_text}
use repo_assessment_kit.Protocol.Grammar.{codes, max_safe_integer}
use repo_assessment_kit.Protocol.Shape.{sort_by}

-- A lower-case hexadecimal digit.
unfoldable pub hex_digit : ℕ → ℕ
hex_digit n = if ltb n 10 then b'0' + n else 87 + n

-- One character of `JSON.stringify(text)`.
unfoldable pub escaped : ℕ → List ℕ
unfolding hex_digit
escaped c =
    if eqb c 34
    then codes "\\\""
    else if eqb c 92
    then codes "\\\\"
    else if eqb c 8
    then codes "\\b"
    else if eqb c 9
    then codes "\\t"
    else if eqb c 10
    then codes "\\n"
    else if eqb c 12
    then codes "\\f"
    else if eqb c 13
    then codes "\\r"
    else if ltb c 32
    then codes "\\u00" ++ hex_digit (c / 16) ∷ hex_digit (c % 16) ∷ []
    else c ∷ []

unfoldable pub escaped_all : List ℕ → List ℕ
unfolding escaped
escaped_all [] = []
escaped_all (c ∷ cs) = escaped c ++ escaped_all cs

unfoldable pub quoted : String → List ℕ
unfolding escaped_all
quoted s = 34 ∷ (escaped_all (codes s) ++ 34 ∷ [])

-- `Number.isSafeInteger`.
unfoldable pub is_safe_integer : Number → Bool
is_safe_integer (natural n) = leb n max_safe_integer
is_safe_integer (negative n) = ltb n max_safe_integer
is_safe_integer (other s) = false

-- A member of an object: its name and its canonical text.
unfoldable pub member : String × List ℕ → List ℕ
unfolding quoted
member (name, text) = quoted name ++ b':' ∷ text

-- `Array.prototype.join` with a comma.
unfoldable pub joined : List (List ℕ) → List ℕ
joined [] = []
joined (t ∷ []) = t
joined (t ∷ (u ∷ us)) = t ++ b',' ∷ joined (u ∷ us)

unfoldable mutual
  unfolding quoted is_safe_integer joined member number_text sort_by

  pub canonical_json : Value → Result (List ℕ)
  canonical_json null = ok (codes "null")
  canonical_json (bool true) = ok (codes "true")
  canonical_json (bool false) = ok (codes "false")
  canonical_json (str s) = ok (quoted s)
  canonical_json (num n) =
      if is_safe_integer n then ok (codes (number_text n)) else throws auth_failed
  canonical_json (arr vs) = do texts ← canonical_items vs; ok (b'[' ∷ (joined texts ++ b']' ∷ []))
  canonical_json (obj fs) = do
    members ← canonical_fields fs
    ok (b'{' ∷ (joined (map member (sort_by (λ m. m.0) members)) ++ b'}' ∷ []))
  canonical_json undefined = throws auth_failed

  pub canonical_items : Items → Result (List (List ℕ))
  canonical_items no_items = ok []
  canonical_items (item v vs) = do
    text ← canonical_json v
    texts ← canonical_items vs
    ok (text ∷ texts)

  pub canonical_fields : Fields → Result (List (String × List ℕ))
  canonical_fields no_fields = ok []
  canonical_fields (property name v fs) = do
    text ← canonical_json v
    members ← canonical_fields fs
    ok ((name, text) ∷ members)
