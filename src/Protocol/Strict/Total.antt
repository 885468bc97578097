-- ===== src/Protocol/Strict/Total.antt =====
-- The fuel of `read_text` is enough for every text: `parseStrictJsonBytes` of
-- scripts/host-helper-protocol.mjs always comes to an end.
use repo_assessment_kit.Prelude.{
  ℕ, zero, suc, ◌+◌, ◌*◌, ◌≤◌, ◌<◌, ◌≡◌, ◌≢◌, String, Bool, true, false, some, List, [], ◌∷◌, eqb,
  length, includes, arith, Bool-cases, Option-cases, inl, inr,
}
use repo_assessment_kit.Json.{Number, Value, Items, Fields}
use repo_assessment_kit.Protocol.Grammar.{codes}
use repo_assessment_kit.Protocol.Canonical.{is_safe_integer}
use repo_assessment_kit.Protocol.Reader.{Read, out_of_fuel, ◌>>=◌, skip_space, closes}
use repo_assessment_kit.Protocol.Scalars.{
  whole_digits, fraction, safe_number, read_digits, read_number, after_word, read_scalar,
}
use repo_assessment_kit.Protocol.Strict.{
  read_value, read_items, read_members, read_start, read_name, read_array, read_object, read_text,
  whole,
}
use repo_assessment_kit.Protocol.Strict.Leaves.{
  Leaves, left, gave_up, Leaves-more, Leaves-if, Leaves-bind, skip_space-le, read_string-Leaves,
  digits-le, fraction-le, exponent-le, List-cases, closes-lt, expect-then, separator-Leaves,
}

safe_number-Leaves : (n : Number) (rest : List ℕ) → Leaves (length rest) (safe_number n rest)
unfolding safe_number
safe_number-Leaves n rest = Leaves-if (is_safe_integer n) _ _ (left (omega arith)) gave_up

whole_digits-le :
    (cs whole rest : List ℕ) → whole_digits cs ≡ some (whole, rest) → length rest ≤ length cs
unfolding whole_digits
whole_digits-le [] whole rest h = absurd (ground arith)
whole_digits-le (c ∷ cs) whole rest h = ground (arith, digits-le (c ∷ cs))

module _ (nearest : List ℕ → Number) where
  read_digits-Leaves :
      (minus : Bool) (cs : List ℕ) → Leaves (length cs) (read_digits nearest minus cs)
  unfolding read_digits
  read_digits-Leaves minus cs = elim (Option-cases (whole_digits cs)) [
    | inl e ↦ rw (read_digits, e) gave_up
    | inr ((whole, rest), e) ↦
        rw (read_digits, e)
          (Leaves-more
            (omega (
              arith,
              whole_digits-le cs whole rest e,
              fraction-le rest,
              exponent-le (fraction rest).1,
            ))
            (safe_number-Leaves _ _))
  ]

  read_number-Leaves : (cs : List ℕ) → Leaves (length cs) (read_number nearest cs)
  unfolding read_number
  read_number-Leaves [] = gave_up
  read_number-Leaves (c ∷ cs) =
      Leaves-if (eqb c 45) _ _ (Leaves-more (omega arith) (read_digits-Leaves true cs))
        (read_digits-Leaves false (c ∷ cs))

after_word-le : (ws cs rest : List ℕ) → after_word ws cs ≡ some rest → length rest ≤ length cs
unfolding after_word
after_word-le [] cs rest h = ground arith
after_word-le (w ∷ ws) [] rest h = absurd (ground arith)
after_word-le (w ∷ ws) (c ∷ cs) rest h = elim (Bool-cases (eqb w c)) [
  | inl e ↦ ground (arith, after_word-le ws cs rest)
  | inr e ↦ ground (arith, after_word-le ws cs rest)
]

read_name-Leaves : (names : List String) (cs : List ℕ) → Leaves (length cs) (read_name names cs)
unfolding read_name
read_name-Leaves names cs =
    Leaves-bind _ (Leaves-more (skip_space-le cs) (read_string-Leaves (skip_space cs)))
      λ name rest h.
        Leaves-if (includes names name) _ _ gave_up
          (expect-then 58 rest _ λ rest' lt. left (omega arith))

read_array-Leaves :
    (more : List ℕ → Read (Items × List ℕ)) (cs : List ℕ)
    → Leaves (length cs) (more cs)
    → Leaves (length cs) (read_array more cs)
unfolding read_array
read_array-Leaves more cs step = elim (Option-cases (closes b']' cs)) [
  | inl e ↦ rw (read_array, e) step
  | inr (rest, e) ↦ rw (read_array, e) (left (omega (arith, closes-lt b']' cs rest e)))
]

read_object-Leaves :
    (more : List ℕ → Read (Fields × List ℕ)) (cs : List ℕ)
    → Leaves (length cs) (more cs)
    → Leaves (length cs) (read_object more cs)
unfolding read_object
read_object-Leaves more cs step = elim (Option-cases (closes b'}' cs)) [
  | inl e ↦ rw (read_object, e) step
  | inr (rest, e) ↦ rw (read_object, e) (left (omega (arith, closes-lt b'}' cs rest e)))
]

module _ (nearest : List ℕ → Number) where
  read_scalar-Leaves : (cs : List ℕ) → Leaves (length cs) (read_scalar nearest cs)
  unfolding read_scalar
  read_scalar-Leaves cs = elim (Option-cases (after_word (codes "true") cs)) [
    | inr (rest, e) ↦ rw (read_scalar, e) (left (after_word-le (codes "true") cs rest e))
    | inl e ↦ elim (Option-cases (after_word (codes "false") cs)) [
      | inr (rest, e') ↦ rw (read_scalar, e, e') (left (after_word-le (codes "false") cs rest e'))
      | inl e' ↦ elim (Option-cases (after_word (codes "null") cs)) [
        | inr (rest, e'') ↦
            rw (read_scalar, e, e', e'') (left (after_word-le (codes "null") cs rest e''))
        | inl e'' ↦ rw (read_scalar, e, e', e'') (read_number-Leaves nearest cs)
      ]
    ]
  ]

  read_start-Leaves :
      (array : List ℕ → Read (Items × List ℕ)) (object : List ℕ → Read (Fields × List ℕ))
      (cs : List ℕ)
      → ((rest : List ℕ) → length rest < length cs → Leaves (length rest) (array rest))
      → ((rest : List ℕ) → length rest < length cs → Leaves (length rest) (object rest))
      → Leaves (length cs) (read_start nearest array object cs)
  unfolding read_start
  read_start-Leaves array object [] arrays objects = gave_up
  read_start-Leaves array object (c ∷ cs) arrays objects =
      Leaves-if (eqb c 34) _ _ (Leaves-bind _ (read_string-Leaves (c ∷ cs)) λ s rest h. left h) (
        Leaves-if (eqb c b'[') _ _
          (Leaves-bind _ (arrays cs (omega arith)) λ vs rest h. left (omega arith))
          (Leaves-if (eqb c b'{') _ _
            (Leaves-bind _ (objects cs (omega arith)) λ fs rest h. left (omega arith))
            (read_scalar-Leaves (c ∷ cs))))

  read_value-Leaves :
      (fuel : ℕ)
      → ((cs : List ℕ) → 2 * length cs < fuel → Leaves (length cs) (read_value nearest fuel cs))
        × ((cs : List ℕ)
            → 2 * length cs + 1 < fuel
            → Leaves (length cs) (read_items nearest fuel cs))
        × ((names : List String) (cs : List ℕ)
            → 2 * length cs + 1 < fuel
            → Leaves (length cs) (read_members nearest fuel names cs))
  unfolding read_value
  read_value-Leaves zero = (
    λ cs h. absurd (omega arith),
    λ cs h. absurd (omega arith),
    λ names cs h. absurd (omega arith),
  )
  read_value-Leaves (suc fuel) =
      let (values, items, members) = read_value-Leaves fuel in
      (
        λ cs h. Leaves-more (skip_space-le cs) (
            read_start-Leaves _ _ (skip_space cs)
              (λ rest lt.
                read_array-Leaves (λ x. read_items nearest fuel x) rest
                  (items rest (omega (arith, skip_space-le cs))))
              (λ rest lt.
                read_object-Leaves (λ x. read_members nearest fuel [] x) rest
                  (members [] rest (omega (arith, skip_space-le cs))))),
        λ cs h. Leaves-bind _ (values cs (omega arith)) λ v rest le.
            separator-Leaves b']' rest _ (λ rest' lt. left (omega arith))
              (λ rest' lt.
                Leaves-bind _ (items rest' (omega arith)) λ vs after le'. left (omega arith)),
        λ names cs h. Leaves-bind _ (read_name-Leaves names cs) λ name rest le.
            Leaves-bind _ (values rest (omega arith)) λ v rest' le'.
              separator-Leaves b'}' rest' _ (λ rest'' lt. left (omega arith))
                (λ rest'' lt.
                  Leaves-bind _ (members (name ∷ names) rest'' (omega arith))
                    λ fs after le''. left (omega arith)),
      )

  whole-ne-out_of_fuel : (p : Value × List ℕ) → whole nearest p ≢ out_of_fuel
  unfolding whole
  whole-ne-out_of_fuel (v, rest) h = elim (List-cases (skip_space rest)) [
    | inl e ↦ absurd (ground arith)
    | inr (c, cs, e) ↦ absurd (ground arith)
  ]

  finished : {n : ℕ} {r : Read (Value × List ℕ)} → Leaves n r → r >>= whole nearest ≢ out_of_fuel
  finished (left {a} {rest} le) h = whole-ne-out_of_fuel (a, rest) h
  finished gave_up h = absurd (ground arith)

  -- Every text is read to its end: whatever its characters, the parser accepts it or refuses it, and
  -- the fuel that its length gives is enough for every recursive call.
  pub read_text-ne-out_of_fuel : (cs : List ℕ) → read_text nearest cs ≢ out_of_fuel
  unfolding read_text
  read_text-ne-out_of_fuel cs =
      finished ((read_value-Leaves (2 * length cs + 1)).0 cs (omega arith))
