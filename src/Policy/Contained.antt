-- ===== src/Policy/Contained.antt =====
-- What `validateRuntimePolicy` of packages/runtime/src/policy.ts promises of a candidate that it accepts.
use repo_assessment_kit.Prelude.{
  append-eq-nil, ◌≡◌, ◌≢◌, refl, ap, String, true, false, ◌&&◌, List, [], ◌∷◌, ◌++◌, includes,
  every, arith, &&-eq-true, Bool-cases, inl, inr, ℕ, ◌⊎◌,
}
use repo_assessment_kit.Prelude.Dict.{lookup}
use repo_assessment_kit.Json.{
  Fields, Value, undefined, null, obj, arr, str, num, bool, get, keys, is_undefined,
}
use repo_assessment_kit.Protocol.Grammar.{codes, is_digit}
use repo_assessment_kit.Policy.Text.{same_codes, split_at, is_numeric_user, numeric_parts}
use repo_assessment_kit.Policy.Text.Found.{
  contains_part-append, same_codes-eq, same_codes-ne, all_digits-every,
}
use repo_assessment_kit.Policy.Dockerfile.{is_mutable_image}
use repo_assessment_kit.Policy.Tables.{unknown_keys, forbidden_service_keys, service_keys, names_of}
use repo_assessment_kit.Policy.Resources.{Doubles, unless_undefined}
use repo_assessment_kit.Policy.Parts.{image_codes, accepts_user, first_is_zero}
use repo_assessment_kit.Policy.Codes.{concat-eq-nil, rejects-eq-nil}
use repo_assessment_kit.Policy.Candidate.{
  code_of, forbidden_codes, user_codes, service_parts, service_codes,
}

-- The image has no content, or its name carries a digest.
abbrev pub ImageIsPinned : Value → Type 0
ImageIsPinned undefined = Unit
ImageIsPinned (str s) =
    (codes s ≡ codes "scratch")
    ⊎ ((before : List ℕ) × (digest : List ℕ) × (codes s ≡ before ++ (codes "@sha256:" ++ digest)))
ImageIsPinned _ = ⊥

-- The user, where there is one, is written in digits, and not as "0".
abbrev pub UserIsNotRoot : Value → Type 0
UserIsNotRoot undefined = Unit
UserIsNotRoot (str s) =
    (user : List ℕ) × (group : List (List ℕ)) × (split_at b':' (codes s) ≡ user ∷ group)
    × (every is_digit user ≡ true)
    × (user ≢ codes "0")
UserIsNotRoot _ = ⊥

pub record IsContained (service : Fields) : Type 0 where
  pub fields : every (includes service_keys) (keys service) ≡ true
  pub source : (get (obj service) "image" ≢ undefined) ⊎ (get (obj service) "build" ≢ undefined)
  pub image : ImageIsPinned (get (obj service) "image")
  pub user : UserIsNotRoot (get (obj service) "user")

abbrev pub ServiceIsContained : Value → Type 0
ServiceIsContained (obj service) = IsContained service
ServiceIsContained _ = ⊥

pinned-text : (s : String) → is_mutable_image (codes s) ≡ false → ImageIsPinned (str s)
unfolding is_mutable_image
pinned-text s h = elim (Bool-cases (same_codes (codes s) (codes "scratch"))) [
  | inl same ↦ inl (same_codes-eq (codes s) (codes "scratch") same)
  | inr differs ↦ inr (contains_part-append (codes "@sha256:") (codes s) (ground arith))
]

image_codes-ImageIsPinned : (image : Value) → image_codes image ≡ [] → ImageIsPinned image
unfolding image_codes
image_codes-ImageIsPinned undefined h = tt
image_codes-ImageIsPinned (str s) h = pinned-text s (rejects-eq-nil _ _ h)
image_codes-ImageIsPinned null h = cc
image_codes-ImageIsPinned (obj fs) h = cc
image_codes-ImageIsPinned (arr vs) h = cc
image_codes-ImageIsPinned (num n) h = cc
image_codes-ImageIsPinned (bool b) h = cc

numeric-first :
    (parts : List (List ℕ))
    → numeric_parts parts ≡ true
    → first_is_zero parts ≡ false
    → (user : List ℕ) × (group : List (List ℕ)) × (parts ≡ user ∷ group)
      × (every is_digit user ≡ true)
      × (user ≢ codes "0")
unfolding numeric_parts first_is_zero
numeric-first [] numeric not_zero = cc
numeric-first (user ∷ []) numeric not_zero =
    (user, [], refl, all_digits-every user numeric, same_codes-ne user (codes "0") not_zero)
numeric-first (user ∷ group ∷ []) numeric not_zero = (
  user,
  group ∷ [],
  refl,
  all_digits-every user (ground arith),
  same_codes-ne user (codes "0") not_zero,
)
numeric-first (user ∷ group ∷ part ∷ parts) numeric not_zero = cc

accepts_user-UserIsNotRoot :
    (user : Value) → unless_undefined user_codes user ≡ [] → UserIsNotRoot user
unfolding user_codes accepts_user is_numeric_user
accepts_user-UserIsNotRoot undefined h = tt
accepts_user-UserIsNotRoot (str s) h =
    let taken = rejects-eq-nil _ _ h in
    numeric-first (split_at b':' (codes s)) (ground arith) (ground arith)
accepts_user-UserIsNotRoot null h = cc
accepts_user-UserIsNotRoot (obj fs) h = cc
accepts_user-UserIsNotRoot (arr vs) h = cc
accepts_user-UserIsNotRoot (num n) h = cc
accepts_user-UserIsNotRoot (bool b) h = cc

left_of :
    (xs : List String) (table : List (String × String)) (key : String)
    → code_of (lookup key table) ≡ []
    → includes (xs ++ names_of table) key ≡ true
    → includes xs key ≡ true
unfolding lookup
left_of [] [] key absent known = cc
left_of [] ((name, rejection) ∷ table) key absent known = ground (arith, left_of [] table key)
left_of (x ∷ xs) table key absent known = ground (arith, left_of xs table key)

permitted-fields :
    (allowed : List String) (table : List (String × String)) (fields : List String)
    → forbidden_codes table fields ≡ []
    → every (includes (allowed ++ names_of table)) fields ≡ true
    → every (includes allowed) fields ≡ true
unfolding forbidden_codes
permitted-fields allowed table [] none_forbidden known = refl
permitted-fields allowed table (field ∷ fields) none_forbidden known =
    let (absent, none_later) = append-eq-nil (code_of (lookup field table)) _ none_forbidden in
    let (known_here, known_later) = &&-eq-true _ _ known in
    rw (left_of allowed table field absent known_here)
      (permitted-fields allowed table fields none_later known_later)

some-source :
    (image build : Value)
    → (is_undefined image && is_undefined build) ≡ false
    → (image ≢ undefined) ⊎ (build ≢ undefined)
some-source image build h = elim (Bool-cases (is_undefined image)) [
  | inl missing ↦ inr (λ e. ground (arith, ap is_undefined e))
  | inr present ↦ inl (λ e. ground (arith, ap is_undefined e))
]

pub service_codes-IsContained :
    (doubles : Doubles) (service : Fields)
    → service_codes doubles service ≡ []
    → IsContained service
unfolding service_codes unknown_keys
service_codes-IsContained doubles service h =
    let parts = concat-eq-nil (service_parts doubles service) h in
    record {
      fields =
          permitted-fields service_keys forbidden_service_keys (keys service) parts.0
            (ground (arith, rejects-eq-nil _ _ parts.1.0));
      source = some-source _ _ (rejects-eq-nil _ _ parts.1.1.0);
      image = image_codes-ImageIsPinned _ parts.1.1.1.0;
      user = accepts_user-UserIsNotRoot _ parts.1.1.1.1.0;
    }
