-- ===== src/Protocol/Payload/Registered.antt =====
-- The two tables of operations of scripts/host-helper-protocol.mjs agree: `OPERATION_PAYLOAD_KEYS`
-- and the `switch` of `validateHostOperationPayload`.
use repo_assessment_kit.Prelude.{
  ◌≡◌, refl, ◌≢◌, ◌↔◌, String, true, none, List, [], ◌∷◌, arith, eq_iff, includes, every,
}
use repo_assessment_kit.Prelude.Dict.{lookup}
use repo_assessment_kit.Json.{Value}
use repo_assessment_kit.Protocol.Grammar.{Platform}
use repo_assessment_kit.Protocol.Registry.{operation_payload_keys}
use repo_assessment_kit.Protocol.Payload.{payload_cases}

names {ℓ} : {V : Type ℓ} → List (String × V) → List String
names [] = []
names ((name, value) ∷ others) = name ∷ names others

module _ {ℓ} {V : Type ℓ} where
  includes-lookup :
      (k : String) (m : List (String × V)) → includes (names m) k ≡ true → lookup k m ≢ none
  unfolding lookup names
  includes-lookup k [] h = cc
  includes-lookup k ((j, v) ∷ m) h = ground (arith, includes-lookup k m)

  lookup-includes :
      (k : String) (m : List (String × V)) → lookup k m ≢ none → includes (names m) k ≡ true
  unfolding lookup names
  lookup-includes k [] h = absurd (h refl)
  lookup-includes k ((j, v) ∷ m) h = ground (arith, lookup-includes k m)

every-includes :
    (k : String) (xs ys : List String)
    → every (includes ys) xs ≡ true
    → includes xs k ≡ true
    → includes ys k ≡ true
every-includes k [] ys h m = cc
every-includes k (x ∷ xs) ys h m = ground (arith, eq_iff x k, every-includes k xs ys)

-- Names of the first table are names of the second.
covers {ℓ κ} :
    {V : Type ℓ} {W : Type κ} (m : List (String × V)) (n : List (String × W)) (k : String)
    → every (includes (names n)) (names m) ≡ true
    → lookup k m ≢ none
    → lookup k n ≢ none
covers m n k covered h =
    includes-lookup k n (every-includes k (names m) (names n) covered (lookup-includes k m h))

-- A name has an entry in the table of payload fields exactly when the payload validation has a
-- case for it: no registered operation is left without validation, and none is validated that is
-- not registered.
pub registered_iff :
    (node : Platform) (payload : Value) (operation : String)
    → (lookup operation operation_payload_keys ≢ none)
      ↔ (lookup operation (payload_cases node payload) ≢ none)
unfolding operation_payload_keys payload_cases names
registered_iff node payload operation = (
  covers operation_payload_keys (payload_cases node payload) operation refl,
  covers (payload_cases node payload) operation_payload_keys operation refl,
)
