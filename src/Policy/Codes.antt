-- ===== src/Policy/Codes.antt =====
-- The set of rejection codes of packages/runtime/src/policy.ts: the codes added by consecutive statements, and
-- `[...rejections].sort()`.
use repo_assessment_kit.Prelude.{
  ◌≡◌, refl, ap, ◌∙◌, String, Bool, true, false, not, ◌&&◌, ◌||◌, List, [], ◌∷◌, ◌++◌, includes,
  arith, ◌==◌, eq_iff, All,
}
use repo_assessment_kit.Protocol.Shape.{insert_sorted, sort_by, sort}
use repo_assessment_kit.Service.Reconcile.{unique}
use repo_assessment_kit.Policy.Text.{rejects, concat}

-- Where nothing is added, no statement added anything.
pub concat-eq-nil : (parts : List (List String)) → concat parts ≡ [] → All (λ part. part ≡ []) parts
concat-eq-nil [] h = tt
concat-eq-nil ([] ∷ parts) h = (refl, concat-eq-nil parts h)
concat-eq-nil ((x ∷ xs) ∷ parts) h = cc

pub rejects-eq-nil :
    (condition : Bool) (code : String) → rejects condition code ≡ [] → condition ≡ false
rejects-eq-nil true code h = cc
rejects-eq-nil false code h = refl

pub includes-append :
    (xs ys : List String) (s : String) → includes (xs ++ ys) s ≡ (includes xs s || includes ys s)
includes-append [] ys s = refl
includes-append (x ∷ xs) ys s = ground (arith, includes-append xs ys s)

includes-unique :
    (seen xs : List String) (s : String)
    → includes (unique seen xs) s ≡ (not (includes seen s) && includes xs s)
unfolding unique
includes-unique seen [] s = ground arith
includes-unique seen (x ∷ xs) s =
    ground (arith, includes-unique seen xs s, includes-unique (x ∷ seen) xs s, eq_iff x s)

includes-insert :
    (a : String) (bs : List String) (s : String)
    → includes (insert_sorted (λ t. t) a bs) s ≡ (a == s || includes bs s)
unfolding insert_sorted
includes-insert a [] s = refl
includes-insert a (b ∷ bs) s = ground (arith, includes-insert a bs s)

includes-sort : (xs : List String) (s : String) → includes (sort xs) s ≡ includes xs s
unfolding sort sort_by
includes-sort [] s = refl
includes-sort (x ∷ xs) s =
    includes-insert x (sort xs) s ∙ ap (λ b. x == s || b) (includes-sort xs s)

-- The codes that a result lists for a set.
abbrev pub listed : List String → List String
listed found = sort (unique [] found)

pub includes-listed :
    (found : List String) (s : String) → includes (listed found) s ≡ includes found s
includes-listed found s = includes-sort (unique [] found) s ∙ includes-unique [] found s
