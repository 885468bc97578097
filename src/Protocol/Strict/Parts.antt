-- ===== src/Protocol/Strict/Parts.antt =====
-- What `canonicalJson` of scripts/host-helper-protocol.mjs prints for a scalar, and for an array or an
-- object whose parts are read back, `parseStrictJsonBytes` reads back.
use mathlib.Core.List.{append_assoc}
use repo_assessment_kit.Prelude.{
  ℕ, zero, suc, ◌*◌, ◌<◌, ◌≡◌, refl, sym, ap, ◌∙◌, String, true, false, ◌||◌, none, List, [], ◌∷◌,
  ◌++◌, eqb, length, length-append, All, arith,
}
use repo_assessment_kit.Json.{Number, Value, null, bool, num, str, arr, obj}
use repo_assessment_kit.Json.Text.{number_text}
use repo_assessment_kit.Protocol.Grammar.{codes, is_digit}
use repo_assessment_kit.Protocol.Canonical.{quoted, member, joined, is_safe_integer}
use repo_assessment_kit.Protocol.Reader.{got, ◌>>=◌, is_space, skip_space, closes}
use repo_assessment_kit.Protocol.Scalars.{read_scalar, read_number, after_word}
use repo_assessment_kit.Protocol.Strict.{
  read_value, read_items, read_members, read_start, read_array, read_object,
}
use repo_assessment_kit.Protocol.Strict.Texts.{read_string-quoted}
use repo_assessment_kit.Protocol.Strict.Numbers.{Ends, read_number-number_text, number_text-front}
use repo_assessment_kit.Protocol.Strict.Lists.{
  items_of, IsFront, Reads, ReadsItem, Member, Fresh, item_texts, item_values, items-read,
  member_texts, member_values, members-read,
}

append_last : (t : List ℕ) (c : ℕ) (rest : List ℕ) → (t ++ c ∷ []) ++ rest ≡ t ++ c ∷ rest
append_last t c rest = append_assoc t (c ∷ []) rest

module _ (nearest : List ℕ → Number) where
  -- A value's text is read to the value by any fuel above twice its length.
  spend :
      (text : List ℕ) (v : Value)
      → ((fuel : ℕ) (rest : List ℕ)
          → Ends rest
          → 2 * length text < suc fuel
          → read_value nearest (suc fuel) (text ++ rest) ≡ got (v, rest))
      → Reads nearest text v
  spend text v step zero rest ends h = elim h [ ]
  spend text v step (suc fuel) rest ends h = step fuel rest ends h

  pub quoted-ReadsItem : (s : String) → ReadsItem nearest (quoted s, str s)
  unfolding quoted read_value read_start is_space
  quoted-ReadsItem s = (
    record { first = 34; others = _; shape = refl; no_space = refl; no_end = refl },
    spend (quoted s) (str s) λ fuel rest ends h.
        ap (λ r. r >>= λ (t, rest'). got (str t, rest')) (read_string-quoted s rest),
  )

  pub null-ReadsItem : ReadsItem nearest (codes "null", null)
  unfolding read_value is_space
  null-ReadsItem = (
    record { first = _; others = _; shape = refl; no_space = refl; no_end = refl },
    spend (codes "null") null λ fuel rest ends h. refl,
  )

  pub true-ReadsItem : ReadsItem nearest (codes "true", bool true)
  unfolding read_value is_space
  true-ReadsItem = (
    record { first = _; others = _; shape = refl; no_space = refl; no_end = refl },
    spend (codes "true") (bool true) λ fuel rest ends h. refl,
  )

  pub false-ReadsItem : ReadsItem nearest (codes "false", bool false)
  unfolding read_value is_space
  false-ReadsItem = (
    record { first = _; others = _; shape = refl; no_space = refl; no_end = refl },
    spend (codes "false") (bool false) λ fuel rest ends h. refl,
  )

  -- A text that begins like a number is read as one.
  record IsNumeric (c : ℕ) : Type 0 where
    no_space : is_space c ≡ false
    no_quote : eqb c 34 ≡ false
    no_array : eqb c b'[' ≡ false
    no_object : eqb c b'{' ≡ false
    no_true : eqb b't' c ≡ false
    no_false : eqb b'f' c ≡ false
    no_null : eqb b'n' c ≡ false
    no_end : eqb c b']' ≡ false

  digit-IsNumeric : (c : ℕ) → (is_digit c || eqb c b'-') ≡ true → IsNumeric c
  unfolding is_space is_digit
  digit-IsNumeric c h = record {
    no_space = ground arith;
    no_quote = ground arith;
    no_array = ground arith;
    no_object = ground arith;
    no_true = ground arith;
    no_false = ground arith;
    no_null = ground arith;
    no_end = ground arith;
  }

  read_scalar-number :
      (c : ℕ) (cs : List ℕ)
      → IsNumeric c
      → read_scalar nearest (c ∷ cs) ≡ read_number nearest (c ∷ cs)
  unfolding read_scalar read_number
  read_scalar-number c cs n = rw (read_scalar, after_word, n.no_true, n.no_false, n.no_null)

  number_start :
      (fuel c : ℕ) (cs : List ℕ)
      → IsNumeric c
      → read_value nearest (suc fuel) (c ∷ cs) ≡ read_number nearest (c ∷ cs)
  unfolding read_value read_number
  number_start fuel c cs n =
      rw (read_value, skip_space, n.no_space, read_start, n.no_quote, n.no_array, n.no_object)
        (read_scalar-number c cs n)

  pub number-ReadsItem :
      (n : Number) → is_safe_integer n ≡ true → ReadsItem nearest (codes (number_text n), num n)
  number-ReadsItem n safe =
      let (c, cs, shape, front) = number_text-front nearest n safe in
      (
        record {
          first = c;
          others = cs;
          shape = shape;
          no_space = (digit-IsNumeric c front).no_space;
          no_end = (digit-IsNumeric c front).no_end;
        },
        spend (codes (number_text n)) (num n) λ fuel rest ends h.
            ap (λ text. read_value nearest (suc fuel) (text ++ rest)) shape
            ∙ number_start fuel c (cs ++ rest) (digit-IsNumeric c front)
            ∙ ap (λ text. read_number nearest (text ++ rest)) (sym shape)
            ∙ read_number-number_text nearest n rest safe ends,
      )

  -- An array and an object, given their parts.
  item_texts-IsFront :
      (p : List ℕ × Value) (ps : List (List ℕ × Value))
      → IsFront p.0
      → IsFront (item_texts nearest (p ∷ ps))
  unfolding joined
  item_texts-IsFront p [] front = front
  item_texts-IsFront p (q ∷ qs) front = record {
    first = front.first;
    others = front.others ++ b',' ∷ item_texts nearest (q ∷ qs);
    shape = ap (λ t. t ++ b',' ∷ item_texts nearest (q ∷ qs)) front.shape;
    no_space = front.no_space;
    no_end = front.no_end;
  }

  closes-front : (text rest : List ℕ) → IsFront text → closes b']' (text ++ rest) ≡ none
  unfolding closes
  closes-front text rest front = rw (front.shape, closes, skip_space, front.no_space, front.no_end)

  unfoldable pub array_text : List (List ℕ × Value) → List ℕ
  array_text ps = b'[' ∷ (item_texts nearest ps ++ b']' ∷ [])

  read_array-item_texts :
      (ps : List (List ℕ × Value)) (fuel : ℕ) (rest : List ℕ)
      → All (ReadsItem nearest) ps
      → 2 * length (array_text ps) < suc fuel
      → read_array (read_items nearest fuel) (item_texts nearest ps ++ b']' ∷ rest)
        ≡ got (item_values nearest ps, rest)
  unfolding array_text read_array
  read_array-item_texts [] fuel rest all h = unfold read_array joined items_of is_space in refl
  read_array-item_texts (p ∷ ps) fuel rest (first, others) h =
      let t : List ℕ = item_texts nearest (p ∷ ps) in
      let enough = length-append t (b']' ∷ []) in
      rw (read_array, closes-front t (b']' ∷ rest) (item_texts-IsFront p ps first.0))
        (items-read nearest p ps fuel rest (first, others) (omega arith))

  pub array-ReadsItem :
      (ps : List (List ℕ × Value))
      → All (ReadsItem nearest) ps
      → ReadsItem nearest (array_text ps, arr (item_values nearest ps))
  unfolding array_text
  array-ReadsItem ps all = (
    record {
      first = _;
      others = _;
      shape = refl;
      no_space = unfold is_space in refl;
      no_end = refl;
    },
    spend (array_text ps) (arr (item_values nearest ps)) λ fuel rest ends h.
        unfold read_value is_space in
        ap (λ r. r >>= λ (vs, rest'). got (arr vs, rest'))
          (ap (read_array (read_items nearest fuel)) (append_last (item_texts nearest ps) b']' rest)
            ∙ read_array-item_texts ps fuel rest all h),
  )

  unfoldable pub object_text : List (Member nearest) → List ℕ
  object_text ms = b'{' ∷ (member_texts nearest ms ++ b'}' ∷ [])

  closes-member :
      (m : Member nearest) (ms : List (Member nearest)) (rest : List ℕ)
      → closes b'}' (member_texts nearest (m ∷ ms) ++ rest) ≡ none
  unfolding closes joined member quoted is_space
  closes-member m [] rest = refl
  closes-member m (q ∷ qs) rest = refl

  read_object-item_texts :
      (ms : List (Member nearest)) (fuel : ℕ) (rest : List ℕ)
      → All (λ m. ReadsItem nearest m.1) ms
      → Fresh nearest [] ms
      → 2 * length (object_text ms) < suc fuel
      → read_object (read_members nearest fuel []) (member_texts nearest ms ++ b'}' ∷ rest)
        ≡ got (member_values nearest ms, rest)
  unfolding object_text read_object
  read_object-item_texts [] fuel rest all fresh h = unfold read_object joined is_space in refl
  read_object-item_texts (m ∷ ms) fuel rest all fresh h =
      let t : List ℕ = member_texts nearest (m ∷ ms) in
      let enough = length-append t (b'}' ∷ []) in
      rw (read_object, closes-member m ms (b'}' ∷ rest))
        (members-read nearest [] m ms fuel rest all fresh (omega arith))

  pub object-ReadsItem :
      (ms : List (Member nearest))
      → All (λ m. ReadsItem nearest m.1) ms
      → Fresh nearest [] ms
      → ReadsItem nearest (object_text ms, obj (member_values nearest ms))
  unfolding object_text
  object-ReadsItem ms all fresh = (
    record {
      first = _;
      others = _;
      shape = refl;
      no_space = unfold is_space in refl;
      no_end = refl;
    },
    spend (object_text ms) (obj (member_values nearest ms)) λ fuel rest ends h.
        unfold read_value is_space in
        ap (λ r. r >>= λ (fs, rest'). got (obj fs, rest'))
          (ap (read_object (read_members nearest fuel []))
              (append_last (member_texts nearest ms) b'}' rest)
            ∙ read_object-item_texts ms fuel rest all fresh h),
  )
