-- ===== src/Prelude/Result.antt =====
-- Code that returns a value or throws. `HostHelperError` carries one of the codes below; `thrown` is
-- any other exception (`TypeError`, `SyntaxError`), which has no such code.
use mathlib.Core.Path.{◌≡◌, refl}
use mathlib.Core.Logic.{◌⊎◌, inl, inr}
use mathlib.Core.Bool.{Bool, true, false}

pub data Error : Type 0 where
  protocol_version auth_failed replay expired stale_fence idempotency_conflict : Error
  unknown_registered_id invalid_transition policy_rejected resource_limit : Error
  not_checkpointable resource_not_found internal : Error
  thrown : Error

pub data Result {ℓ} (A : Type ℓ) : Type ℓ where
  ok : A → Result A
  throws : Error → Result A

infixl 5 ◌>>=◌ ◌>>◌
abbrev pub ◌>>=◌ {ℓ κ} : {A : Type ℓ} {B : Type κ} → Result A → (A → Result B) → Result B
throws x >>= next = throws x
ok value >>= next = next value

-- A statement that returns nothing, before the rest of its block.
abbrev pub ◌>>◌ {ℓ} : {B : Type ℓ} → Result (Unit {0}) → Result B → Result B
throws x >> rest = throws x
ok _ >> rest = rest

-- `if (!condition) fail(code)`.
abbrev pub require : Bool → Error → Result (Unit {0})
require condition code = elim condition [ true ↦ ok tt | false ↦ throws code ]

pub require-eq-ok :
    (condition : Bool) (code : Error) {u : Unit {0}}
    → require condition code ≡ ok u
    → condition ≡ true
require-eq-ok true code passed = refl
require-eq-ok false code passed = cc

-- A block that returns has passed its first statement.
pub first_ok {ℓ} :
    {B : Type ℓ} (first : Result (Unit {0})) (rest : Result B) {value : B}
    → (first >> rest) ≡ ok value
    → (first ≡ ok tt) × (rest ≡ ok value)
first_ok (throws x) rest returned = cc
first_ok (ok tt) rest returned = (refl, returned)

pub bound_ok {ℓ κ} :
    {A : Type ℓ} {B : Type κ} (first : Result A) (next : A → Result B) {value : B}
    → (first >>= next) ≡ ok value
    → (x : A) × (first ≡ ok x) × (next x ≡ ok value)
bound_ok (throws x) next returned = cc
bound_ok (ok x) next returned = (x, refl, returned)

pub Result-cases {ℓ} :
    {A : Type ℓ} (m : Result A) → ((a : A) × (m ≡ ok a)) ⊎ ((x : Error) × (m ≡ throws x))
Result-cases (throws x) = inr (x, refl)
Result-cases (ok a) = inl (a, refl)
