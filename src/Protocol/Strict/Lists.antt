-- ===== src/Protocol/Strict/Lists.antt =====
-- Arrays and objects that `canonicalJson` of scripts/host-helper-protocol.mjs prints are read back by
-- `parseStrictJsonBytes`, if their parts are.
use mathlib.Core.List.{append_assoc}
use repo_assessment_kit.Prelude.{
  ℕ, zero, suc, ◌+◌, ◌*◌, ◌<◌, ◌≡◌, refl, String, false, none, List, [], ◌∷◌, ◌++◌, map, eqb,
  length, length-append, includes, All, arith, ◌==◌,
}
use repo_assessment_kit.Json.{Number, Value, Items, no_items, item, Fields, no_fields, fields_of}
use repo_assessment_kit.Protocol.Grammar.{codes, is_digit}
use repo_assessment_kit.Protocol.Canonical.{quoted, member, joined}
use repo_assessment_kit.Protocol.Reader.{got, is_space, skip_space}
use repo_assessment_kit.Protocol.Strict.{read_value, read_items, read_members, read_name}
use repo_assessment_kit.Protocol.Strict.Members.{array_index, set_member-plain}
use repo_assessment_kit.Protocol.Scalars.{digits, fraction, exponent}
use repo_assessment_kit.Protocol.Strict.Texts.{read_string-quoted}
use repo_assessment_kit.Protocol.Strict.Numbers.{Ends}

unfoldable pub items_of : List Value → Items
items_of [] = no_items
items_of (v ∷ vs) = item v (items_of vs)

-- A text that begins with neither white space nor `]`.
pub record IsFront (text : List ℕ) : Type 0 where
  pub first : ℕ
  pub others : List ℕ
  pub shape : text ≡ first ∷ others
  pub no_space : is_space first ≡ false
  pub no_end : eqb first b']' ≡ false

Ends-comma : (rest : List ℕ) → Ends (b',' ∷ rest)
Ends-comma rest =
    unfold digits is_digit fraction exponent in
    record { no_digit = refl; no_fraction = refl; no_exponent = refl }

Ends-bracket : (rest : List ℕ) → Ends (b']' ∷ rest)
Ends-bracket rest =
    unfold digits is_digit fraction exponent in
    record { no_digit = refl; no_fraction = refl; no_exponent = refl }

Ends-brace : (rest : List ℕ) → Ends (b'}' ∷ rest)
Ends-brace rest =
    unfold digits is_digit fraction exponent in
    record { no_digit = refl; no_fraction = refl; no_exponent = refl }

pub Ends-nil : Ends []
Ends-nil =
    unfold digits fraction exponent in
    record { no_digit = refl; no_fraction = refl; no_exponent = refl }

module _ (nearest : List ℕ → Number) where
  -- With enough fuel the text is read to the value, before anything that ends a value.
  abbrev pub Reads : List ℕ → Value → Type 0
  Reads text v =
      (fuel : ℕ) (rest : List ℕ)
      → Ends rest
      → 2 * length text < fuel
      → read_value nearest fuel (text ++ rest) ≡ got (v, rest)

  abbrev pub ReadsItem : List ℕ × Value → Type 0
  ReadsItem (text, v) = IsFront text × Reads text v

  abbrev pub item_texts : List (List ℕ × Value) → List ℕ
  item_texts ps = joined (map (λ p. p.0) ps)

  abbrev pub item_values : List (List ℕ × Value) → Items
  item_values ps = items_of (map (λ p. p.1) ps)

  -- The items of an array, after the bracket that opens it.
  pub items-read :
      (p : List ℕ × Value) (ps : List (List ℕ × Value)) (fuel : ℕ) (rest : List ℕ)
      → All ReadsItem (p ∷ ps)
      → 2 * length (item_texts (p ∷ ps)) + 1 < fuel
      → read_items nearest fuel (item_texts (p ∷ ps) ++ b']' ∷ rest)
        ≡ got (item_values (p ∷ ps), rest)
  unfolding read_items joined items_of
  items-read p ps zero rest all h = elim h [ ]
  items-read p [] (suc fuel) rest (first, others) h =
      rw (read_items, first.1 fuel (b']' ∷ rest) (Ends-bracket rest) (omega arith))
  items-read p (q ∷ qs) (suc fuel) rest (first, others) h =
      let tail : List ℕ = item_texts (q ∷ qs) in
      let enough = length-append p.0 (b',' ∷ tail) in
      rw (
        append_assoc p.0 (b',' ∷ tail) (b']' ∷ rest),
        read_items,
        first.1 fuel (b',' ∷ (tail ++ b']' ∷ rest)) (Ends-comma (tail ++ b']' ∷ rest))
            (omega arith),
        items-read q qs fuel rest others (omega arith),
      )

  -- The members of an object, after the brace that opens it: a name with a text and a value.
  abbrev pub Member : Type 0
  Member = String × (List ℕ × Value)

  abbrev pub member_text : Member → List ℕ
  member_text m = member (m.0, m.1.0)

  abbrev pub member_texts : List Member → List ℕ
  member_texts ms = joined (map member_text ms)

  abbrev pub member_values : List Member → Fields
  member_values ms = fields_of (map (λ m. (m.0, m.1.1)) ms)

  -- The names differ from each other and from those that came before, and none is an array index.
  abbrev pub Fresh : List String → List Member → Type 0
  Fresh names [] = Unit
  Fresh names (m ∷ ms) =
      (includes names m.0 ≡ false)
      × ((m.0 == "__proto__") ≡ false)
      × (array_index (codes m.0) ≡ none)
      × Fresh (m.0 ∷ names) ms

  read_name-quoted :
      (names : List String) (name : String) (rest : List ℕ)
      → includes names name ≡ false
      → read_name names (quoted name ++ b':' ∷ rest) ≡ got (name, rest)
  unfolding read_name
  read_name-quoted names name rest fresh =
      let same : skip_space (quoted name ++ b':' ∷ rest) ≡ quoted name ++ b':' ∷ rest =
        unfold skip_space quoted in refl in
      rw (same, read_string-quoted name (b':' ∷ rest), fresh)

  member-append :
      (name : String) (text rest : List ℕ)
      → member (name, text) ++ rest ≡ quoted name ++ b':' ∷ (text ++ rest)
  unfolding member
  member-append name text rest = append_assoc (quoted name) (b':' ∷ text) rest

  length-member : (m : Member) → length (member_text m) ≡ length (quoted m.0) + length m.1.0 + 1
  unfolding member
  length-member m = omega (arith, length-append (quoted m.0) (b':' ∷ m.1.0))

  pub members-read :
      (names : List String) (m : Member) (ms : List Member) (fuel : ℕ) (rest : List ℕ)
      → All (λ n. ReadsItem n.1) (m ∷ ms)
      → Fresh names (m ∷ ms)
      → 2 * length (member_texts (m ∷ ms)) + 1 < fuel
      → read_members nearest fuel names (member_texts (m ∷ ms) ++ b'}' ∷ rest)
        ≡ got (member_values (m ∷ ms), rest)
  unfolding read_members joined
  members-read names m ms zero rest all fresh h = elim h [ ]
  members-read names (name, (text, v)) [] (suc fuel) rest (first, others) (new, own, plain, more)
        h =
      let enough = length-member (name, (text, v)) in
      rw (
        member-append name text (b'}' ∷ rest),
        read_members,
        read_name-quoted names name (text ++ b'}' ∷ rest) new,
        first.1 fuel (b'}' ∷ rest) (Ends-brace rest) (omega arith),
        set_member-plain name v no_fields own tt,
      )
  members-read names (name, (text, v)) (q ∷ qs) (suc fuel) rest (first, others)
        (new, own, plain, more) h =
      let tail : List ℕ = member_texts (q ∷ qs) in
      let enough = length-member (name, (text, v)) in
      let longer = length-append (member_text (name, (text, v))) (b',' ∷ tail) in
      rw (
        append_assoc (member_text (name, (text, v))) (b',' ∷ tail) (b'}' ∷ rest),
        member-append name text (b',' ∷ (tail ++ b'}' ∷ rest)),
        read_members,
        read_name-quoted names name (text ++ b',' ∷ (tail ++ b'}' ∷ rest)) new,
        first.1 fuel (b',' ∷ (tail ++ b'}' ∷ rest)) (Ends-comma (tail ++ b'}' ∷ rest))
            (omega arith),
        members-read (name ∷ names) q qs fuel rest others more (omega arith),
        set_member-plain name v (member_values (q ∷ qs)) own more.2,
      )
