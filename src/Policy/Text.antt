-- ===== src/Policy/Text.antt =====
-- The tests on texts in packages/runtime/src/policy.ts, on code points. With the flags `iu` a regular
-- expression compares letters by `fold`.
pub mod Found
use repo_assessment_kit.Prelude.{
  ℕ, ◌+◌, String, Bool, true, false, not, ◌&&◌, ◌||◌, Option, none, some, List, [], ◌∷◌, ◌++◌, leb,
  eqb, every, any, if◌then◌else◌,
}
use repo_assessment_kit.Protocol.Grammar.{codes, is_digit}

-- `\s`, and what `trim` removes.
unfoldable pub is_white : ℕ → Bool
is_white c =
    leb 9 c && leb c 13
    || any (eqb c) (32 ∷ 160 ∷ 5760 ∷ 8232 ∷ 8233 ∷ 8239 ∷ 8287 ∷ 12288 ∷ 65279 ∷ [])
    || leb 8192 c && leb c 8202

-- What `.` does not match.
unfoldable pub is_line_end : ℕ → Bool
is_line_end c = eqb c 10 || eqb c 13 || eqb c 8232 || eqb c 8233

-- A letter without its case; the long s and the sign for kelvin are an s and a k.
unfoldable pub fold : ℕ → ℕ
fold c =
    if leb 65 c && leb c 90
    then c + 32
    else if eqb c 383
    then 115
    else if eqb c 8490
    then 107
    else c

unfoldable pub folded : List ℕ → List ℕ
unfolding fold
folded [] = []
folded (c ∷ cs) = fold c ∷ folded cs

-- `startsWith`, with what follows the prefix.
unfoldable pub past_prefix : List ℕ → List ℕ → Option (List ℕ)
past_prefix [] cs = some cs
past_prefix (p ∷ ps) [] = none
past_prefix (p ∷ ps) (c ∷ cs) = if eqb p c then past_prefix ps cs else none

unfoldable pub starts : List ℕ → List ℕ → Bool
unfolding past_prefix
starts prefix cs = elim (past_prefix prefix cs) [ none ↦ false | some rest ↦ true ]

-- `text.includes(part)`.
unfoldable pub contains_part : List ℕ → List ℕ → Bool
unfolding starts
contains_part part [] = starts part []
contains_part part (c ∷ cs) = starts part (c ∷ cs) || contains_part part cs

unfoldable pub same_codes : List ℕ → List ℕ → Bool
same_codes [] [] = true
same_codes (x ∷ xs) (y ∷ ys) = eqb x y && same_codes xs ys
same_codes xs ys = false

unfoldable pub drop_white : List ℕ → List ℕ
unfolding is_white
drop_white [] = []
drop_white (c ∷ cs) = let rest = drop_white cs in if is_white c then rest else c ∷ cs

drop_white_end : List ℕ → List ℕ
unfolding is_white
drop_white_end [] = []
drop_white_end (c ∷ cs) = elim (drop_white_end cs) [
  | [] ↦ if is_white c then [] else c ∷ []
  | d ∷ ds ↦ c ∷ d ∷ ds
]

unfoldable pub trim : List ℕ → List ℕ
unfolding drop_white drop_white_end
trim cs = drop_white (drop_white_end cs)

-- The parts between the characters `c`.
unfoldable pub split_at : ℕ → List ℕ → List (List ℕ)
split_at c [] = [] ∷ []
split_at c (d ∷ ds) = elim (split_at c ds) [
  | [] ↦ []
  | part ∷ parts ↦ if eqb d c then [] ∷ part ∷ parts else (d ∷ part) ∷ parts
]

-- The parts between white space, without empty ones.
unfoldable pub tokens : List ℕ → List (List ℕ)
unfolding is_white
tokens [] = []
tokens (c ∷ []) = if is_white c then [] else (c ∷ []) ∷ []
tokens (c ∷ d ∷ cs) =
    let rest = tokens (d ∷ cs) in
    if is_white c
    then rest
    else if is_white d
    then (c ∷ []) ∷ rest
    else elim rest [ [] ↦ (c ∷ []) ∷ [] | t ∷ ts ↦ (c ∷ t) ∷ ts ]

-- `/^(?:https?|git|ssh):/iu`.
unfoldable pub has_scheme : List ℕ → Bool
unfolding folded starts
has_scheme cs =
    any (λ scheme. starts scheme (folded cs))
      (codes "http:" ∷ codes "https:" ∷ codes "git:" ∷ codes "ssh:" ∷ [])

-- `safeRelativePath` of a text.
unfoldable pub is_relative_path : List ℕ → Bool
unfolding has_scheme split_at same_codes
is_relative_path [] = false
is_relative_path (c ∷ cs) =
    not (eqb c b'/')
    && not (any (eqb 92) (c ∷ cs))
    && not (has_scheme (c ∷ cs))
    && not (any (same_codes (codes "..")) (split_at b'/' (c ∷ cs)))

is_name_start : ℕ → Bool
is_name_start c = leb 65 c && leb c 90 || leb 97 c && leb c 122 || eqb c b'_'

-- `/^[A-Za-z_][A-Za-z0-9_]*$/u`.
unfoldable pub is_variable_name : List ℕ → Bool
unfolding is_name_start
is_variable_name [] = false
is_variable_name (c ∷ cs) = is_name_start c && every (λ d. is_name_start d || is_digit d) cs

abbrev pub credential_words : List String
credential_words =
    "prod" ∷ "production" ∷ "secret" ∷ "token" ∷ "pass" ∷ "password" ∷ "credential" ∷ "apikey"
    ∷ "api_key" ∷ "privatekey" ∷ "private_key" ∷ "accesskey" ∷ "access_key" ∷ "clientsecret"
    ∷ "client_secret" ∷ "auth" ∷ "databaseurl" ∷ "database_url" ∷ "dsn" ∷ []

-- A word at the front, before `_` or the end.
unfoldable pub word_here : List ℕ → String → Bool
unfolding past_prefix
word_here cs word = elim (past_prefix (codes word) cs) [
  | none ↦ false
  | some [] ↦ true
  | some (c ∷ rest) ↦ eqb c b'_'
]

unfoldable pub words_after_bar : List String → List ℕ → Bool
unfolding word_here
words_after_bar words [] = false
words_after_bar words (c ∷ cs) = eqb c b'_' && any (word_here cs) words || words_after_bar words cs

-- `CREDENTIAL_NAME`, which may match anywhere in the name.
unfoldable pub is_credential_name : List ℕ → Bool
unfolding folded word_here words_after_bar
is_credential_name cs =
    any (word_here (folded cs)) credential_words || words_after_bar credential_words (folded cs)

-- `/^\d+(?::\d+)?$/u`.
unfoldable pub all_digits : List ℕ → Bool
all_digits [] = false
all_digits (c ∷ cs) = every is_digit (c ∷ cs)

unfoldable pub numeric_parts : List (List ℕ) → Bool
unfolding all_digits
numeric_parts (user ∷ []) = all_digits user
numeric_parts (user ∷ group ∷ []) = all_digits user && all_digits group
numeric_parts parts = false

unfoldable pub is_numeric_user : List ℕ → Bool
unfolding numeric_parts split_at
is_numeric_user cs = numeric_parts (split_at b':' cs)

-- `if (condition) rejections.add(code)`: what one statement adds to the codes.
abbrev pub rejects : Bool → String → List String
rejects true rejection = rejection ∷ []
rejects false rejection = []

-- What the statements of a function add, one after another.
abbrev pub concat : List (List String) → List String
concat [] = []
concat (part ∷ parts) = part ++ concat parts
