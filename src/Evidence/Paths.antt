-- ===== src/Evidence/Paths.antt =====
-- `normalizeRepositoryPath` of packages/evidence/src/index.ts. A path is the list of its characters.
use repo_assessment_kit.Prelude.{
  ℕ, ◌≡◌, refl, ap, ◌∙◌, sym, Bool, true, false, not, ◌&&◌, ◌||◌, List, [], ◌∷◌, ◌++◌, leb, eqb,
  any, arith, if◌then◌else◌, Bool-cases, inl, inr,
}
use repo_assessment_kit.Prelude.Result.{Result, ok, thrown, require, ◌>>◌, first_ok, require-eq-ok}

-- `text.split("/")` and `parts.join("/")`.
unfoldable pub split : List ℕ → List (List ℕ)
split [] = [] ∷ []
split (c ∷ cs) = elim (split cs) [
  | [] ↦ []
  | part ∷ parts ↦ if eqb c b'/' then [] ∷ part ∷ parts else (c ∷ part) ∷ parts
]

unfoldable pub join_parts : List (List ℕ) → List ℕ
join_parts [] = []
join_parts (part ∷ []) = part
join_parts (part ∷ next ∷ parts) = part ++ b'/' ∷ join_parts (next ∷ parts)

abbrev tail : List (List ℕ) → List (List ℕ)
tail [] = []
tail (x ∷ xs) = xs

abbrev pub reverse_onto : List (List ℕ) → List (List ℕ) → List (List ℕ)
reverse_onto [] ys = ys
reverse_onto (x ∷ xs) ys = reverse_onto xs (x ∷ ys)

is_control : ℕ → Bool
is_control c = leb c 31 || eqb c 127

is_letter : ℕ → Bool
is_letter c = leb 65 c && leb c 90 || leb 97 c && leb c 122

-- `/^[A-Za-z]:/`.
has_drive : List ℕ → Bool
unfolding is_letter
has_drive (c ∷ d ∷ cs) = is_letter c && eqb d b':'
has_drive cs = false

is_absolute : List ℕ → Bool
is_absolute [] = false
is_absolute (c ∷ cs) = eqb c b'/'

is_empty : List ℕ → Bool
is_empty [] = true
is_empty (c ∷ cs) = false

-- An empty segment, `.` or `..`.
unfoldable pub is_dots : List ℕ → Bool
is_dots [] = true
is_dots (c ∷ []) = eqb c b'.'
is_dots (c ∷ d ∷ []) = eqb c b'.' && eqb d b'.'
is_dots (c ∷ d ∷ e ∷ cs) = false

unfoldable pub normalize_repository_path : List ℕ → Result (List ℕ)
unfolding is_empty is_absolute has_drive is_control is_dots split join_parts
normalize_repository_path candidate = do
  require
      (not (
        is_empty candidate
        || is_absolute candidate
        || has_drive candidate
        || any (λ c. eqb c 92) candidate
        || any is_control candidate))
      thrown
  require (not (any is_dots (split candidate))) thrown
  ok (join_parts (split candidate))

join-cons :
    (c : ℕ) (part : List ℕ) (parts : List (List ℕ))
    → join_parts ((c ∷ part) ∷ parts) ≡ c ∷ join_parts (part ∷ parts)
unfolding join_parts
join-cons c part [] = refl
join-cons c part (next ∷ parts) = refl

split-ne-nil : (cs : List ℕ) → (part : List ℕ) × (parts : List (List ℕ)) × (split cs ≡ part ∷ parts)
unfolding split
split-ne-nil [] = ([], [], refl)
split-ne-nil (c ∷ cs) =
    let (part, parts, e) = split-ne-nil cs in
    elim (Bool-cases (eqb c b'/')) [
      | inl slash ↦ ([], part ∷ parts, rw (e, slash) refl)
      | inr other ↦ (c ∷ part, parts, rw (e, other) refl)
    ]

join-slash :
    (part : List ℕ) (parts : List (List ℕ))
    → join_parts ([] ∷ part ∷ parts) ≡ b'/' ∷ join_parts (part ∷ parts)
unfolding join_parts
join-slash part parts = refl

join-one : (part : List ℕ) → join_parts (part ∷ []) ≡ part
unfolding join_parts
join-one part = refl

is_slash : (c : ℕ) → eqb c b'/' ≡ true → b'/' ≡ c
is_slash c h = ground arith

join-split : (cs : List ℕ) → join_parts (split cs) ≡ cs
unfolding split
join-split [] = join-one []
join-split (c ∷ cs) =
    let (part, parts, e) = split-ne-nil cs in
    let ih : join_parts (part ∷ parts) ≡ cs = ap join_parts (sym e) ∙ join-split cs in
    elim (Bool-cases (eqb c b'/')) [
      | inl slash ↦
          rw (split, e, slash)
            (join-slash part parts ∙ ap (λ t. b'/' ∷ t) ih ∙ ap (λ x. x ∷ cs) (is_slash c slash))
      | inr other ↦ rw (split, e, other) (join-cons c part parts ∙ ap (λ t. c ∷ t) ih)
    ]

is_dot : List ℕ → Bool
is_dot (c ∷ []) = eqb c b'.'
is_dot cs = false

is_parent : List ℕ → Bool
is_parent (c ∷ d ∷ []) = eqb c b'.' && eqb d b'.'
is_parent cs = false

-- How a POSIX system follows the segments of a path: the directory that it has reached is the list of
-- the names on the way to it, the last first.
unfoldable pub follow : List (List ℕ) → List (List ℕ) → List (List ℕ)
unfolding is_dot is_parent is_empty
follow directory [] = directory
follow directory (part ∷ parts) =
    follow
      (if is_empty part || is_dot part
        then directory
        else if is_parent part
        then tail directory
        else part ∷ directory)
      parts

follow_below :
    (directory parts : List (List ℕ))
    → any is_dots parts ≡ false
    → follow directory parts ≡ reverse_onto parts directory
unfolding follow is_dots
follow_below directory [] h = refl
follow_below directory ([] ∷ parts) h = absurd (ground arith)
follow_below directory ((c ∷ []) ∷ parts) h =
    ground (arith, follow_below ((c ∷ []) ∷ directory) parts)
follow_below directory ((c ∷ d ∷ []) ∷ parts) h =
    ground (arith, follow_below ((c ∷ d ∷ []) ∷ directory) parts)
follow_below directory ((c ∷ d ∷ e ∷ cs) ∷ parts) h =
    follow_below ((c ∷ d ∷ e ∷ cs) ∷ directory) parts h

returned_path : (p q : List ℕ) → ok p ≡ ok q → q ≡ p
returned_path p q h = cc

-- A path that is accepted is returned as it is, and leads below the directory that it is followed
-- from: to that directory with the segments of the path behind it.
pub normalize-below :
    (candidate path : List ℕ)
    → normalize_repository_path candidate ≡ ok path
    → (path ≡ candidate)
      × ((directory : List (List ℕ))
          → follow directory (split path) ≡ reverse_onto (split path) directory)
unfolding normalize_repository_path
normalize-below candidate path h =
    let (first, h') = first_ok (require _ thrown) (require _ thrown >> ok _) h in
    let (second, returned) = first_ok (require _ thrown) (ok _) h' in
    let same : path ≡ candidate =
      returned_path (join_parts (split candidate)) path returned ∙ join-split candidate in
    let plain = require-eq-ok (not (any is_dots (split candidate))) thrown second in
    (same, λ directory. rw same (follow_below directory (split candidate) (ground arith)))
