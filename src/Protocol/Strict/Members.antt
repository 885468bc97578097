-- ===== src/Protocol/Strict/Members.antt =====
-- `result[name] = value()` in `parseStrictJsonBytes` of scripts/host-helper-protocol.mjs, and the order that
-- JavaScript gives to the properties of an object: names that are array indices come first, by their
-- numbers, and all others follow in the order in which they were written.
use repo_assessment_kit.Prelude.{
  ℕ, ◌+◌, ◌-◌, ◌*◌, ◌≡◌, refl, String, Bool, true, false, not, ◌&&◌, Option, none, some, List, [],
  ◌∷◌, ltb, eqb, length, ◌==◌, if◌then◌else◌,
}
use repo_assessment_kit.Json.{Value, null, Fields, no_fields, property}
use repo_assessment_kit.Protocol.Grammar.{codes, is_digit}

-- The number that a text of digits stands for, after `n` has been read.
read_index : ℕ → List ℕ → Option ℕ
unfolding is_digit
read_index n [] = some n
read_index n (c ∷ cs) =
    let rest = read_index (n * 10 + (c - 48)) cs in if is_digit c then rest else none

below_limit : Option ℕ → Option ℕ
below_limit none = none
below_limit (some n) = if ltb n 4294967295 then some n else none

-- The number of an array index, which is written without a leading zero and is below 2^32 - 1.
unfoldable pub array_index : List ℕ → Option ℕ
unfolding read_index below_limit
array_index [] = none
array_index (c ∷ cs) =
    if eqb c b'0' && not (eqb (length cs) 0) then none else below_limit (read_index 0 (c ∷ cs))

-- Whether the first name stands before the second one, which was written later.
unfoldable pub precedes : Option ℕ → Option ℕ → Bool
precedes index none = true
precedes none (some n) = false
precedes (some m) (some n) = ltb m n

-- A property that was written before all of the others.
unfoldable pub place : String → Value → Fields → Fields
unfolding array_index precedes
place name v no_fields = property name v no_fields
place name v (property other w fs) =
    if precedes (array_index (codes name)) (array_index (codes other))
    then property name v (property other w fs)
    else property other w (place name v fs)

-- Assigning to `__proto__` makes no property of its own. (It changes the prototype, which the model
-- leaves out.)
unfoldable pub set_member : String → Value → Fields → Fields
unfolding place
set_member name v fs = if name == "__proto__" then fs else place name v fs

index_order :
    set_member "b" null (set_member "10" null (set_member "a" null (set_member "9" null no_fields)))
    ≡ property "9" null (property "10" null (property "b" null (property "a" null no_fields)))
unfolding set_member is_digit
index_order = refl

-- What follows is not named by an array index.
abbrev pub FollowsPlain : Fields → Type 0
FollowsPlain no_fields = Unit
FollowsPlain (property other w fs) = array_index (codes other) ≡ none

pub set_member-plain :
    (name : String) (v : Value) (fs : Fields)
    → (name == "__proto__") ≡ false
    → FollowsPlain fs
    → set_member name v fs ≡ property name v fs
unfolding set_member place
set_member-plain name v no_fields own follows = rw own refl
set_member-plain name v (property other w fs) own follows =
    rw (own, follows) (unfold precedes in refl)
