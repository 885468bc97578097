-- ===== src/Protocol/Reader.antt =====
-- Readers, for `parseStrictJsonBytes` of scripts/host-helper-protocol.mjs: a reader takes the rest of
-- the text and returns a value with what it leaves. Every refusal of the source is the same failure,
-- AUTH_FAILED. Recursion costs fuel.
use repo_assessment_kit.Prelude.{
  ℕ, Bool, true, false, ◌||◌, Option, none, some, List, [], ◌∷◌, eqb, if◌then◌else◌,
}

pub data Read {ℓ} (A : Type ℓ) : Type ℓ where
  got : A → Read A
  refused out_of_fuel : Read A

infixl 5 ◌>>=◌
abbrev pub ◌>>=◌ {ℓ κ} : {A : Type ℓ} {B : Type κ} → Read A → (A → Read B) → Read B
got a >>= next = next a
refused >>= next = refused
out_of_fuel >>= next = out_of_fuel

-- `/[\t\n\r ]/u`.
unfoldable pub is_space : ℕ → Bool
is_space c = eqb c 9 || eqb c 10 || eqb c 13 || eqb c 32

unfoldable pub skip_space : List ℕ → List ℕ
unfolding is_space
skip_space [] = []
skip_space (c ∷ cs) = let rest = skip_space cs in if is_space c then rest else c ∷ cs

-- A character, after white space.
unfoldable pub expect : ℕ → List ℕ → Read (List ℕ)
unfolding skip_space
expect c cs = elim (skip_space cs) [
  | [] ↦ refused
  | d ∷ rest ↦ if eqb d c then got rest else refused
]

-- What follows a closing bracket, if that is the next character after white space.
unfoldable pub closes : ℕ → List ℕ → Option (List ℕ)
unfolding skip_space
closes bracket cs = elim (skip_space cs) [
  | [] ↦ none
  | d ∷ rest ↦ if eqb d bracket then some rest else none
]

-- Whether a comma or the closing bracket comes next, after white space, and what follows it.
unfoldable pub separator : ℕ → List ℕ → Read (Bool × List ℕ)
unfolding closes expect
separator bracket cs = elim (closes bracket cs) [
  | some rest ↦ got (false, rest)
  | none ↦ expect b',' cs >>= λ rest. got (true, rest)
]
