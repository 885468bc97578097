-- ===== src/Policy/Credentials.antt =====
-- The names of variables that packages/runtime/src/policy.ts takes for credentials (`CREDENTIAL_NAME`).
use repo_assessment_kit.Prelude.{
  ◌≡◌, refl, ap, ◌∙◌, String, Bool, true, ◌||◌, some, List, [], ◌∷◌, ◌++◌, includes, any, arith,
  eq_iff, ◌⊎◌, inl, inr, ℕ,
}
use repo_assessment_kit.Prelude.Dict.{lookup}
use repo_assessment_kit.Json.{Fields, Value, obj, get, entries}
use repo_assessment_kit.Protocol.Grammar.{codes}
use repo_assessment_kit.Policy.Text.{
  word_here, words_after_bar, is_credential_name, credential_words, folded,
}
use repo_assessment_kit.Policy.Text.Found.{past_prefix-found}
use repo_assessment_kit.Policy.Resources.{Doubles}
use repo_assessment_kit.Policy.Candidate.{rejected_with, validate_runtime_policy}
use repo_assessment_kit.Policy.Rejected.{service-rejected}
use repo_assessment_kit.Policy.Variables.{
  States, AreVariables, stated-variable, credential-report, variables-reported,
}

-- The end of a text, or an underscore.
abbrev pub EndsWord : List ℕ → Type 0
EndsWord [] = Unit
EndsWord (c ∷ cs) = c ≡ b'_'

-- One of the words stands at the front of the text or after an underscore, and an underscore or the end
-- follows it.
abbrev pub HasCredentialWord : List ℕ → Type 0
HasCredentialWord cs =
    (word : String) × (rest : List ℕ) × (includes credential_words word ≡ true)
    × EndsWord rest
    × ((cs ≡ codes word ++ rest)
        ⊎ ((before : List ℕ) × (cs ≡ before ++ (b'_' ∷ (codes word ++ rest)))))

word_here-found :
    (word : String) (rest : List ℕ) → EndsWord rest → word_here (codes word ++ rest) word ≡ true
unfolding word_here
word_here-found word [] ends = rw (word_here, past_prefix-found (codes word) []) refl
word_here-found word (c ∷ cs) ends =
    rw (word_here, past_prefix-found (codes word) (c ∷ cs)) (ground arith)

any-found :
    (test : String → Bool) (words : List String) (word : String)
    → includes words word ≡ true
    → test word ≡ true
    → any test words ≡ true
any-found test [] word member passes = cc
any-found test (w ∷ words) word member passes =
    ground (arith, eq_iff w word, any-found test words word)

after_bar-found :
    (words : List String) (cs before : List ℕ)
    → any (word_here cs) words ≡ true
    → words_after_bar words (before ++ (b'_' ∷ cs)) ≡ true
unfolding words_after_bar
after_bar-found words cs [] here = rw here refl
after_bar-found words cs (c ∷ before) here = ground (arith, after_bar-found words cs before here)

found_anywhere :
    (words : List String) (cs front : List ℕ)
    → any (word_here front) words ≡ true
    → (cs ≡ front) ⊎ ((before : List ℕ) × (cs ≡ before ++ (b'_' ∷ front)))
    → (any (word_here cs) words || words_after_bar words cs) ≡ true
found_anywhere words cs front here (inl e) = rw (e, here) refl
found_anywhere words cs front here (inr (before, e)) =
    rw e (ground (arith, after_bar-found words front before here))

-- A name with such a word is taken for a credential, in any case.
is_credential_name-found :
    (cs : List ℕ) → HasCredentialWord (folded cs) → is_credential_name cs ≡ true
unfolding is_credential_name
is_credential_name-found cs (word, rest, member, ends, place) =
    found_anywhere credential_words (folded cs) (codes word ++ rest)
      (any-found (word_here (codes word ++ rest)) credential_words word member
        (word_here-found word rest ends))
      place

-- A candidate one of whose services has a variable with a credential word in its name is rejected, and the
-- codes say so, whatever the variable's value is. The variable may stand in the service's environment or
-- among the arguments of its build, as a field of an object or as an item of a list; the word may stand
-- in any case, between underscores or the ends of the name.
pub validate_runtime_policy-credential :
    (doubles : Doubles) (candidate services service : Fields) (service_name : String)
    (variables v : Value) (name : List ℕ)
    → get (obj candidate) "services" ≡ obj services
    → lookup service_name (entries services) ≡ some (obj service)
    → AreVariables service variables
    → States name v variables
    → HasCredentialWord (folded name)
    → (listing : List String) × (validate_runtime_policy doubles (obj candidate)
        ≡ rejected_with listing)
      × (includes listing "CREDENTIAL_ENVIRONMENT_FORBIDDEN" ≡ true)
validate_runtime_policy-credential doubles candidate services service service_name variables v name
      present found place stated credential =
    let (n, w, same, _, reports) = stated-variable variables name v stated in
    let code : String = "CREDENTIAL_ENVIRONMENT_FORBIDDEN" in
    let credential_name : is_credential_name (codes n) ≡ true =
      ap is_credential_name same ∙ is_credential_name-found name credential in
    service-rejected doubles candidate services service_name code present found (
      variables-reported doubles service variables name v code place stated
        (reports code (credential-report n w credential_name)))
