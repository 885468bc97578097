-- ===== src/Policy/Dockerfile.antt =====
-- `validateDockerfile` of packages/runtime/src/policy.ts. No repetition in its regular expressions leaves a
-- choice that matters, so each is read from left to right by white space.
use repo_assessment_kit.Prelude.{
  ℕ, String, Bool, false, not, ◌&&◌, ◌||◌, Option, none, some, List, [], ◌∷◌, ◌++◌, ltb, eqb, any,
  if◌then◌else◌,
}
use repo_assessment_kit.Protocol.Grammar.{codes}
use repo_assessment_kit.Protocol.Responses.{byte_length}
use repo_assessment_kit.Policy.Text.{
  is_white, is_line_end, fold, folded, starts, contains_part, same_codes, drop_white, trim,
  split_at, tokens, has_scheme, rejects, concat,
}

-- The rest of the text after a word in any case.
after_instruction : List ℕ → List ℕ → Option (List ℕ)
unfolding fold
after_instruction [] cs = some cs
after_instruction (p ∷ ps) [] = none
after_instruction (p ∷ ps) (c ∷ cs) = if eqb p (fold c) then after_instruction ps cs else none

-- The rest of the line, if it is the instruction and white space follows it.
instruction : String → List ℕ → Option (List ℕ)
unfolding after_instruction is_white
instruction name line = elim (after_instruction (codes name) line) [
  | none ↦ none
  | some [] ↦ none
  | some (c ∷ rest) ↦ if is_white c then some rest else none
]

-- `--\S+`.
is_flag : List ℕ → Bool
is_flag (a ∷ b ∷ c ∷ cs) = eqb a b'-' && eqb b b'-'
is_flag cs = false

-- The first part that is no flag.
argument : List (List ℕ) → Option (List ℕ)
unfolding is_flag
argument [] = none
argument (t ∷ ts) = if is_flag t then argument ts else some t

last_part : List (List ℕ) → Option (List ℕ)
last_part [] = none
last_part (t ∷ []) = some t
last_part (t ∷ next ∷ ts) = last_part (next ∷ ts)

-- `/^ADD\s+(?:--\S+\s+)*(?:(?:https?|git|ssh):|git@)/iu`.
adds_remote : List ℕ → Bool
unfolding instruction argument has_scheme folded starts tokens
adds_remote line = elim (instruction "add" line) [
  | none ↦ false
  | some rest ↦ elim (argument (tokens rest)) [
    | none ↦ false
    | some t ↦ has_scheme t || starts (codes "git@") (folded t)
  ]
]

-- `/"(?:https?|git|ssh):/iu`.
quotes_scheme : List ℕ → Bool
unfolding has_scheme
quotes_scheme [] = false
quotes_scheme (c ∷ cs) = eqb c 34 && has_scheme cs || quotes_scheme cs

-- `/^ADD\s+\[/iu`, with a quoted scheme anywhere.
adds_remote_list : List ℕ → Bool
unfolding instruction drop_white starts quotes_scheme
adds_remote_list line = elim (instruction "add" line) [
  | none ↦ false
  | some rest ↦ starts (codes "[") (drop_white rest) && quotes_scheme line
]

-- `/^USER\s+(?:0(?::0)?|root(?::root)?)\s*$/iu`.
becomes_root : List ℕ → Bool
unfolding instruction trim folded same_codes
becomes_root line = elim (instruction "user" line) [
  | none ↦ false
  | some rest ↦
      any (same_codes (folded (trim rest)))
        (codes "0" ∷ codes "0:0" ∷ codes "root" ∷ codes "root:root" ∷ [])
]

-- `image !== "scratch" && !image.includes("@sha256:")`.
unfoldable pub is_mutable_image : List ℕ → Bool
unfolding same_codes contains_part
is_mutable_image image =
    not (same_codes image (codes "scratch")) && not (contains_part (codes "@sha256:") image)

-- The group of `/^FROM(?:\s+--\S+)*\s+(\S+)/iu`: where all parts are flags, the last one is taken.
base_image : List ℕ → Option (List ℕ)
unfolding instruction argument last_part tokens
base_image line = elim (instruction "from" line) [
  | none ↦ none
  | some rest ↦ elim (argument (tokens rest)) [
    | none ↦ last_part (tokens rest)
    | some image ↦ some image
  ]
]

uses_mutable_image : List ℕ → Bool
unfolding base_image is_mutable_image
uses_mutable_image line = elim (base_image line) [
  | none ↦ false
  | some image ↦ is_mutable_image image
]

-- One of the options before the end of the line, in any case.
names_option : List (List ℕ) → List ℕ → Bool
unfolding is_line_end starts folded
names_option options [] = false
names_option options (c ∷ cs) =
    any (λ option. starts option (folded (c ∷ cs))) options
    || not (is_line_end c) && names_option options cs

-- `/^RUN\s+.*(?:…)/iu`, for the options given.
runs_with : List (List ℕ) → List ℕ → Bool
unfolding instruction drop_white names_option
runs_with options line = elim (instruction "run" line) [
  | none ↦ false
  | some rest ↦ names_option options (drop_white rest)
]

-- The codes that a line adds, once it is trimmed.
unfoldable pub line_codes : List ℕ → List String
unfolding adds_remote adds_remote_list becomes_root uses_mutable_image runs_with starts
line_codes line = concat (
    rejects (adds_remote line) "REMOTE_DOCKERFILE_ADD_FORBIDDEN"
    ∷ rejects (adds_remote_list line) "REMOTE_DOCKERFILE_ADD_FORBIDDEN"
    ∷ rejects (becomes_root line) "ROOT_USER_FORBIDDEN"
    ∷ rejects (uses_mutable_image line) "MUTABLE_IMAGE_FORBIDDEN"
    ∷ rejects (runs_with (codes "--mount=type=ssh" ∷ codes "--mount=type=secret" ∷ []) line)
        "BUILDKIT_SECRET_FORBIDDEN"
    ∷ rejects (runs_with (codes "--network=host" ∷ codes "--network=default" ∷ []) line)
        "BUILD_NETWORK_OVERRIDE_FORBIDDEN"
    ∷ [])

-- A trimmed line that is empty or a comment adds nothing.
instruction_codes : List ℕ → List String
unfolding line_codes
instruction_codes [] = []
instruction_codes (c ∷ cs) = if eqb c b'#' then [] else line_codes (c ∷ cs)

lines_codes : List (List ℕ) → List String
unfolding instruction_codes trim
lines_codes [] = []
lines_codes (line ∷ lines) = instruction_codes (trim line) ++ lines_codes lines

-- A carriage return before the end of a line is white space, which `trim` removes.
unfoldable pub validate_dockerfile : List ℕ → List String
unfolding lines_codes split_at
validate_dockerfile text =
    if ltb 262144 (byte_length text)
    then "DOCKERFILE_TOO_LARGE" ∷ []
    else lines_codes (split_at 10 text)
