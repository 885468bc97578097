-- ===== src/Protocol/Strict/RoundTrip.antt =====
-- What `canonicalJson` of scripts/host-helper-protocol.mjs prints, `parseStrictJsonBytes` reads back.
use mathlib.Core.List.{append-nil}
use repo_assessment_kit.Prelude.{
  ℕ, ◌+◌, ◌*◌, ◌<◌, ◌≡◌, ◌≢◌, refl, sym, ap, ◌∙◌, String, true, false, Option, none, some, List, [],
  ◌∷◌, ◌++◌, map, length, includes, All, arith, ==-false, Bool-cases, inl, inr,
}
use repo_assessment_kit.Prelude.Result.{ok, Result-cases}
use repo_assessment_kit.Json.{
  Number, Value, undefined, null, bool, num, str, arr, obj, Items, no_items, item, Fields,
  no_fields, property, keys, fields_of,
}
use repo_assessment_kit.Json.Text.{number_text}
use repo_assessment_kit.Protocol.Grammar.{codes}
use repo_assessment_kit.Protocol.Shape.{sort_by}
use repo_assessment_kit.Protocol.Canonical.{
  quoted, member, joined, canonical_json, canonical_items, canonical_fields, is_safe_integer,
}
use repo_assessment_kit.Protocol.Reader.{got, ◌>>=◌}
use repo_assessment_kit.Protocol.Strict.{read_value, read_text, whole, parse_strict_json_bytes}
use repo_assessment_kit.Protocol.Strict.Members.{array_index}
use repo_assessment_kit.Protocol.Strict.Lists.{
  items_of, ReadsItem, Member, Fresh, member_text, Ends-nil,
}
use repo_assessment_kit.Protocol.Strict.Parts.{
  quoted-ReadsItem, null-ReadsItem, true-ReadsItem, false-ReadsItem, number-ReadsItem, array_text,
  object_text, array-ReadsItem, object-ReadsItem,
}
use repo_assessment_kit.Protocol.Strict.Sorted.{Apart, All-sort_by, Apart-sort_by, sort_by-map}

-- A value with the members of its objects in the order of their names.
unfoldable mutual
  unfolding items_of

  pub sorted : Value → Value
  sorted (arr vs) = arr (items_of (sorted_items vs))
  sorted (obj fs) = obj (fields_of (sort_by (λ p. p.0) (sorted_fields fs)))
  sorted v = v

  pub sorted_items : Items → List Value
  sorted_items no_items = []
  sorted_items (item v vs) = sorted v ∷ sorted_items vs

  pub sorted_fields : Fields → List (String × Value)
  sorted_fields no_fields = []
  sorted_fields (property name v fs) = (name, sorted v) ∷ sorted_fields fs

-- A name that keeps its place among the properties of an object.
abbrev pub IsPlain : String → Type 0
IsPlain name = (name ≢ "__proto__") × (array_index (codes name) ≡ none)

-- No object has two members of one name, or one that is named `__proto__` or by an array index.
abbrev mutual
  pub IsNamed : Value → Type 0
  IsNamed (arr vs) = AreNamed vs
  IsNamed (obj fs) = Apart (keys fs) × HasNamed fs
  IsNamed v = Unit

  pub AreNamed : Items → Type 0
  AreNamed no_items = Unit
  AreNamed (item v vs) = IsNamed v × AreNamed vs

  pub HasNamed : Fields → Type 0
  HasNamed no_fields = Unit
  HasNamed (property name v fs) = IsPlain name × IsNamed v × HasNamed fs

Fresh-of_Apart :
    (nearest : List ℕ → Number) (names : List String) (ms : List (Member nearest))
    → All (λ m. includes names m.0 ≡ false) ms
    → Apart (map (λ m. m.0) ms)
    → All (λ m. IsPlain m.0) ms
    → Fresh nearest names ms
Fresh-of_Apart nearest names [] new apart own = tt
Fresh-of_Apart nearest names (m ∷ ms) (new, more) (others, apart) (own, owns) = (
  new,
  ==-false m.0 "__proto__" own.0,
  own.1,
  Fresh-of_Apart nearest (m.0 ∷ names) ms (later ms others more) apart owns,
)
  where
    later :
        (rest : List (Member nearest))
        → All (λ other. other ≢ m.0) (map (λ n. n.0) rest)
        → All (λ n. includes names n.0 ≡ false) rest
        → All (λ n. includes (m.0 ∷ names) n.0 ≡ false) rest
    later [] differ unseen = tt
    later (n ∷ rest) (ne, differ) (un, unseen) =
        (rw (==-false m.0 n.0 (λ e. ne (sym e))) un, later rest differ unseen)

unseen-All :
    (nearest : List ℕ → Number) (ms : List (Member nearest)) → All (λ m. includes [] m.0 ≡ false) ms
unseen-All nearest [] = tt
unseen-All nearest (m ∷ ms) = (refl, unseen-All nearest ms)

map-map-member :
    (nearest : List ℕ → Number) (ms : List (Member nearest))
    → map member (map (λ m. (m.0, m.1.0)) ms) ≡ map (λ m. member_text nearest m) ms
map-map-member nearest [] = refl
map-map-member nearest (m ∷ ms) = ap (λ t. member_text nearest m ∷ t) (map-map-member nearest ms)

module _ (nearest : List ℕ → Number) where
  -- The parts of an array and of an object, each with its text and its value.
  record ItemsRead (vs : Items) (ts : List (List ℕ)) : Type 0 where
    parts : List (List ℕ × Value)
    texts_are : map (λ p. p.0) parts ≡ ts
    values_are : map (λ p. p.1) parts ≡ sorted_items vs
    all : All (ReadsItem nearest) parts

  record FieldsRead (fs : Fields) (ts : List (String × List ℕ)) : Type 0 where
    parts : List (Member nearest)
    texts_are : map (λ m. (m.0, m.1.0)) parts ≡ ts
    values_are : map (λ m. (m.0, m.1.1)) parts ≡ sorted_fields fs
    names_are : map (λ m. m.0) parts ≡ keys fs
    all : All (λ m. ReadsItem nearest m.1) parts
    own : All (λ m. IsPlain m.0) parts

  array-read :
      (vs : Items) (text : List ℕ)
      → ((ts : List (List ℕ)) → canonical_items vs ≡ ok ts → ItemsRead vs ts)
      → canonical_json (arr vs) ≡ ok text
      → ReadsItem nearest (text, sorted (arr vs))
  unfolding canonical_json sorted array_text
  array-read vs text read h = elim (Result-cases (canonical_items vs)) [
    | inr (x, failed) ↦ absurd (ground arith)
    | inl (ts, e) ↦
        let r = read ts e in
        let printed : b'[' ∷ (joined ts ++ b']' ∷ []) ≡ text = ground arith in
        rw (← printed, ← r.texts_are, ← r.values_are) (array-ReadsItem nearest r.parts r.all)
  ]

  object-read :
      (fs : Fields) (text : List ℕ)
      → ((ts : List (String × List ℕ)) → canonical_fields fs ≡ ok ts → FieldsRead fs ts)
      → Apart (keys fs)
      → canonical_json (obj fs) ≡ ok text
      → ReadsItem nearest (text, sorted (obj fs))
  unfolding canonical_json sorted object_text
  object-read fs text read apart h = elim (Result-cases (canonical_fields fs)) [
    | inr (x, failed) ↦ absurd (ground arith)
    | inl (ts, e) ↦
        let r = read ts e in
        let ms = sort_by (λ (m : Member nearest). m.0) r.parts in
        let printed : b'{' ∷ (joined (map member (sort_by (λ m. m.0) ts)) ++ b'}' ∷ []) ≡ text =
          ground arith in
        let fresh : Fresh nearest [] ms =
          Fresh-of_Apart nearest [] ms (unseen-All nearest ms)
            (Apart-sort_by (λ (m : Member nearest). m.0) r.parts (rw r.names_are apart))
            (All-sort_by (λ (m : Member nearest). m.0) (λ m. IsPlain m.0) r.parts r.own) in
        let all : All (λ m. ReadsItem nearest m.1) ms =
          All-sort_by (λ (m : Member nearest). m.0) (λ m. ReadsItem nearest m.1) r.parts r.all in
        rw
          (
            ← printed,
            ← r.texts_are,
            ← r.values_are,
            sort_by-map (λ (m : Member nearest). m.0) (λ (p : String × List ℕ). p.0)
                (λ m. (m.0, m.1.0)) (λ m. refl) r.parts,
            sort_by-map (λ (m : Member nearest). m.0) (λ (p : String × Value). p.0)
                (λ m. (m.0, m.1.1)) (λ m. refl) r.parts,
            map-map-member nearest ms,
          )
          (object-ReadsItem nearest ms all fresh)
  ]

  mutual
    unfolding canonical_json sorted

    value-read :
        (v : Value) (text : List ℕ)
        → IsNamed v
        → canonical_json v ≡ ok text
        → ReadsItem nearest (text, sorted v)
    value-read undefined text named h = cc
    value-read null text named h =
        let e : codes "null" ≡ text = ground arith in rw (← e) (null-ReadsItem nearest)
    value-read (bool true) text named h =
        let e : codes "true" ≡ text = ground arith in rw (← e) (true-ReadsItem nearest)
    value-read (bool false) text named h =
        let e : codes "false" ≡ text = ground arith in rw (← e) (false-ReadsItem nearest)
    value-read (str s) text named h =
        let e : quoted s ≡ text = ground arith in rw (← e) (quoted-ReadsItem nearest s)
    value-read (num n) text named h = elim (Bool-cases (is_safe_integer n)) [
      | inr unsafe ↦ absurd (ground arith)
      | inl safe ↦
          let e : codes (number_text n) ≡ text = ground arith in
          rw (← e) (number-ReadsItem nearest n safe)
    ]
    value-read (arr vs) text named h = array-read vs text (λ ts e. items-all vs ts named e) h
    value-read (obj fs) text (apart, named) h =
        object-read fs text (λ ts e. fields-all fs ts named e) apart h

    items-all :
        (vs : Items) (ts : List (List ℕ))
        → AreNamed vs
        → canonical_items vs ≡ ok ts
        → ItemsRead vs ts
    items-all no_items ts named h = record {
      parts = [];
      texts_are = ground arith;
      values_are = refl;
      all = tt;
    }
    items-all (item v vs) ts (named, others) h = elim (Result-cases (canonical_json v)) [
      | inr (x, failed) ↦ absurd (ground arith)
      | inl (text, e) ↦ elim (Result-cases (canonical_items vs)) [
        | inr (x, failed) ↦ absurd (ground arith)
        | inl (rest, e') ↦
            let first = value-read v text named e in
            let r = items-all vs rest others e' in
            let printed : text ∷ rest ≡ ts = ground arith in
            record {
              parts = (text, sorted v) ∷ r.parts;
              texts_are = ap (λ t. text ∷ t) r.texts_are ∙ printed;
              values_are = ap (λ t. sorted v ∷ t) r.values_are;
              all = (first, r.all);
            }
      ]
    ]

    fields-all :
        (fs : Fields) (ts : List (String × List ℕ))
        → HasNamed fs
        → canonical_fields fs ≡ ok ts
        → FieldsRead fs ts
    fields-all no_fields ts named h = record {
      parts = [];
      texts_are = ground arith;
      values_are = refl;
      names_are = refl;
      all = tt;
      own = tt;
    }
    fields-all (property name v fs) ts (own, named, others) h =
        elim (Result-cases (canonical_json v)) [
          | inr (x, failed) ↦ absurd (ground arith)
          | inl (text, e) ↦ elim (Result-cases (canonical_fields fs)) [
            | inr (x, failed) ↦ absurd (ground arith)
            | inl (rest, e') ↦
                let first = value-read v text named e in
                let r = fields-all fs rest others e' in
                let printed : (name, text) ∷ rest ≡ ts = ground arith in
                record {
                  parts = (name, (text, sorted v)) ∷ r.parts;
                  texts_are = ap (λ t. (name, text) ∷ t) r.texts_are ∙ printed;
                  values_are = ap (λ t. (name, sorted v) ∷ t) r.values_are;
                  names_are = ap (λ t. name ∷ t) r.names_are;
                  all = (first, r.all);
                  own = (own, r.own);
                }
          ]
        ]

  pub canonical_json-ne-nil :
      (v : Value) (text : List ℕ) → IsNamed v → canonical_json v ≡ ok text → 0 < length text
  canonical_json-ne-nil v text named h =
      omega (arith, ap length (value-read v text named h).0.shape)

  -- The strict parser reads the canonical text of a value back to that value, the members of its
  -- objects in the order of their names, if no object has two members of one name, a member `__proto__`,
  -- or one that is named by an array index, and if the bytes are decoded to the text.
  pub parse_strict-canonical :
      (v : Value) (text bytes : List ℕ) (utf8_decode : List ℕ → Option (List ℕ))
      → IsNamed v
      → canonical_json v ≡ ok text
      → utf8_decode bytes ≡ some text
      → parse_strict_json_bytes nearest utf8_decode bytes ≡ ok (sorted v)
  unfolding parse_strict_json_bytes
  parse_strict-canonical v text bytes utf8_decode named h decoded =
      let reads = (value-read v text named h).1 in
      let read : read_value nearest (2 * length text + 1) text ≡ got (sorted v, []) =
        ap (read_value nearest (2 * length text + 1)) (sym (append-nil text))
        ∙ reads (2 * length text + 1) [] Ends-nil (omega arith) in
      let whole_text : read_text nearest text ≡ got (sorted v) =
        unfold read_text whole in ap (λ r. r >>= whole nearest) read in
      rw (parse_strict_json_bytes, decoded, whole_text)
