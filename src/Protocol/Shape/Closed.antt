-- ===== src/Protocol/Shape/Closed.antt =====
-- A closed object has exactly the expected fields: `sameKeys` of scripts/host-helper-protocol.mjs.
use mathlib.Core.List.{Perm}
use mathlib.Core.List.Perm
use repo_assessment_kit.Prelude.{
  ◌≡◌, refl, String, true, List, [], ◌∷◌, arith, eq_iff, Bool-cases, inl, inr,
}
use repo_assessment_kit.Json.{Fields, obj, keys}
use repo_assessment_kit.Protocol.Shape.{
  text_le, insert_sorted, sort_by, sort, same_texts, same_keys,
}

module _ {ℓ} {A : Type ℓ} (key : A → String) where
  insert_sorted-Perm : (a : A) (bs : List A) → Perm (insert_sorted key a bs) (a ∷ bs)
  unfolding insert_sorted
  insert_sorted-Perm a [] = Perm.refl (a ∷ [])
  insert_sorted-Perm a (b ∷ bs) = elim (Bool-cases (text_le (key a) (key b))) [
    | inl first ↦ rw first (Perm.refl (a ∷ b ∷ bs))
    | inr later ↦ rw later (Perm.trans (Perm.cons b (insert_sorted-Perm a bs)) (Perm.swap a b bs))
  ]

  -- `sort` only changes the order.
  pub sort_by-Perm : (items : List A) → Perm (sort_by key items) items
  unfolding sort_by
  sort_by-Perm [] = Perm.refl []
  sort_by-Perm (a ∷ bs) =
      Perm.trans (insert_sorted-Perm a (sort_by key bs)) (Perm.cons a (sort_by-Perm bs))

same_texts-eq : (ss ts : List String) → same_texts ss ts ≡ true → ss ≡ ts
unfolding same_texts
same_texts-eq [] [] h = refl
same_texts-eq (s ∷ ss) (t ∷ ts) h = ground (arith, eq_iff s t, same_texts-eq ss ts)
same_texts-eq [] (t ∷ ts) h = cc
same_texts-eq (s ∷ ss) [] h = cc

-- An object that passes `sameKeys` has exactly the expected fields, in some order: none is missing
-- and none is added.
pub same_keys-Perm :
    (fs : Fields) (expected : List String)
    → same_keys (obj fs) expected ≡ true
    → Perm (keys fs) expected
unfolding same_keys sort
same_keys-Perm fs expected h =
    let sorted = same_texts-eq (sort (keys fs)) (sort expected) h in
    Perm.trans (Perm.symm (sort_by-Perm (λ s. s) (keys fs)))
      (rw sorted (sort_by-Perm (λ s. s) expected))
