-- ===== src/Protocol/Shape.antt =====
-- Closed objects: `sameKeys` and `closed` of scripts/host-helper-protocol.mjs, and the order of
-- `Array.prototype.sort`, which compares UTF-16 code units.
pub mod Closed
use repo_assessment_kit.Prelude.{
  ℕ, ◌+◌, ◌-◌, ◌/◌, ◌%◌, String, Bool, true, false, ◌&&◌, ◌||◌, List, [], ◌∷◌, ltb, eqb, ◌==◌,
  if◌then◌else◌,
}
use repo_assessment_kit.Json.{Value, obj, keys}
use repo_assessment_kit.Protocol.Grammar.{codes}

-- The UTF-16 code units of code points.
unfoldable pub code_units : List ℕ → List ℕ
code_units [] = []
code_units (c ∷ cs) =
    if ltb c 0x10000
    then c ∷ code_units cs
    else (0xd800 + (c - 0x10000) / 0x400) ∷ (0xdc00 + (c - 0x10000) % 0x400) ∷ code_units cs

-- Whether the first sequence of code units does not come after the second.
unfoldable pub units_le : List ℕ → List ℕ → Bool
units_le [] v = true
units_le (a ∷ u) [] = false
units_le (a ∷ u) (b ∷ v) = ltb a b || eqb a b && units_le u v

unfoldable pub text_le : String → String → Bool
unfolding code_units units_le
text_le s t = units_le (code_units (codes s)) (code_units (codes t))

-- `sort` of values by a text, as insertion.
module _ {ℓ} {A : Type ℓ} (key : A → String) where
  unfoldable pub insert_sorted : A → List A → List A
  unfolding text_le
  insert_sorted a [] = a ∷ []
  insert_sorted a (b ∷ bs) = if text_le (key a) (key b) then a ∷ b ∷ bs else b ∷ insert_sorted a bs

  unfoldable pub sort_by : List A → List A
  unfolding insert_sorted
  sort_by [] = []
  sort_by (a ∷ bs) = insert_sorted a (sort_by bs)

unfoldable pub sort : List String → List String
unfolding sort_by
sort names = sort_by (λ s. s) names

-- Equal lengths, and the same text at each index.
unfoldable pub same_texts : List String → List String → Bool
same_texts [] [] = true
same_texts (s ∷ ss) (t ∷ ts) = s == t && same_texts ss ts
same_texts _ _ = false

unfoldable pub same_keys : Value → List String → Bool
unfolding sort same_texts
same_keys (obj fs) expected = same_texts (sort (keys fs)) (sort expected)
same_keys _ expected = false
