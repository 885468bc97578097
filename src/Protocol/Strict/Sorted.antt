-- ===== src/Protocol/Strict/Sorted.antt =====
-- Sorting by name, as `canonicalJson` of scripts/host-helper-protocol.mjs does, keeps what holds of
-- every member, and keeps names apart.
use repo_assessment_kit.Prelude.{
  ◌≡◌, ◌≢◌, refl, sym, String, List, [], ◌∷◌, map, All, Bool-cases, inl, inr,
}
use repo_assessment_kit.Protocol.Shape.{text_le, insert_sorted, sort_by}

-- No text stands twice in a list.
abbrev pub Apart : List String → Type 0
Apart [] = Unit
Apart (k ∷ ks) = All (λ other. other ≢ k) ks × Apart ks

module _ {A : Type 0} (key : A → String) where
  All-map : (P : String → Type 0) (bs : List A) → All (λ b. P (key b)) bs → All P (map key bs)
  All-map P [] all = tt
  All-map P (b ∷ bs) (p, all) = (p, All-map P bs all)

  All-of_map : (P : String → Type 0) (bs : List A) → All P (map key bs) → All (λ b. P (key b)) bs
  All-of_map P [] all = tt
  All-of_map P (b ∷ bs) (p, all) = (p, All-of_map P bs all)

  All-insert_sorted :
      (P : A → Type 0) (a : A) (bs : List A) → P a → All P bs → All P (insert_sorted key a bs)
  unfolding insert_sorted
  All-insert_sorted P a [] p all = (p, tt)
  All-insert_sorted P a (b ∷ bs) p (q, all) = elim (Bool-cases (text_le (key a) (key b))) [
    | inl first ↦ rw first (p, (q, all))
    | inr later ↦ rw later (q, All-insert_sorted P a bs p all)
  ]

  pub All-sort_by : (P : A → Type 0) (bs : List A) → All P bs → All P (sort_by key bs)
  unfolding sort_by
  All-sort_by P [] all = tt
  All-sort_by P (b ∷ bs) (p, all) = All-insert_sorted P b (sort_by key bs) p (All-sort_by P bs all)

  -- Both orders of two names that differ.
  Apart-insert_sorted :
      (a : A) (bs : List A)
      → All (λ b. key b ≢ key a) bs
      → Apart (map key bs)
      → Apart (map key (insert_sorted key a bs))
  unfolding insert_sorted
  Apart-insert_sorted a [] new apart = (tt, tt)
  Apart-insert_sorted a (b ∷ bs) (ne, new) (others, apart) =
      elim (Bool-cases (text_le (key a) (key b))) [
        | inl first ↦ rw first (All-map (λ k. k ≢ key a) (b ∷ bs) (ne, new), (others, apart))
        | inr later ↦ rw later (
          All-map (λ k. k ≢ key b) (insert_sorted key a bs)
              (All-insert_sorted (λ x. key x ≢ key b) a bs (λ e. ne (sym e))
                (All-of_map (λ k. k ≢ key b) bs others)),
          Apart-insert_sorted a bs new apart,
        )
      ]

  pub Apart-sort_by : (bs : List A) → Apart (map key bs) → Apart (map key (sort_by key bs))
  unfolding sort_by
  Apart-sort_by [] apart = tt
  Apart-sort_by (b ∷ bs) (others, apart) =
      Apart-insert_sorted b (sort_by key bs)
        (All-sort_by (λ x. key x ≢ key b) bs (All-of_map (λ k. k ≢ key b) bs others))
        (Apart-sort_by bs apart)

-- Sorting by a name commutes with a change of all else.
module _ {A B : Type 0} (key : A → String) (name : B → String) (f : A → B)
    (same : (a : A) → name (f a) ≡ key a) where
  insert_sorted-map :
      (a : A) (bs : List A) → insert_sorted name (f a) (map f bs) ≡ map f (insert_sorted key a bs)
  unfolding insert_sorted
  insert_sorted-map a [] = refl
  insert_sorted-map a (b ∷ bs) = elim (Bool-cases (text_le (key a) (key b))) [
    | inl first ↦ rw (same a, same b, first)
    | inr later ↦ rw (same a, same b, later, insert_sorted-map a bs)
  ]

  pub sort_by-map : (bs : List A) → sort_by name (map f bs) ≡ map f (sort_by key bs)
  unfolding sort_by
  sort_by-map [] = refl
  sort_by-map (b ∷ bs) = rw (sort_by-map bs, insert_sorted-map b (sort_by key bs))
