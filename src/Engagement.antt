-- ===== src/Engagement.antt =====
-- scripts/engagement-id.mjs: how the identifier of an engagement is read from the file `.rak_id`, or made
-- and written there. Other processes may change the file at any time, so each look at it is given by an
-- argument, as is what the attempt to create it comes to.
pub mod Resolved
pub mod Tests
use repo_assessment_kit.Prelude.{
  ℕ, zero, suc, ◌+◌, ◌%◌, Bool, true, false, not, ◌&&◌, ◌||◌, Option, none, some, List, [], ◌∷◌,
  ltb, leb, eqb, length, every, if◌then◌else◌,
}
use repo_assessment_kit.Protocol.Grammar.{is_digit}

pub data EngagementIdError : Type 0 where
  unreadable unsafe_file wrong_owner unsafe_permissions invalid_file : EngagementIdError
  invalid_override create_failed create_race : EngagementIdError

pub data Outcome {ℓ} (A : Type ℓ) : Type ℓ where
  returned : A → Outcome A
  failed : EngagementIdError → Outcome A

-- What `lstat` and `readFile` find at the path; `text` is `none` if the file cannot be read.
pub record File : Type 0 where
  pub is_link : Bool
  pub is_file : Bool
  pub owner : ℕ
  pub mode : ℕ
  pub size : ℕ
  pub text : Option (List ℕ)

pub data Look : Type 0 where
  missing uninspectable : Look
  found : File → Look

-- What becomes of opening the file for creation and writing it.
pub data Creation : Type 0 where
  created exists not_created : Creation

-- One attempt, with the looks before and after the creation.
pub record Attempt : Type 0 where
  pub first_look : Look
  pub creation : Creation
  pub second_look : Look

is_id_start : ℕ → Bool
unfolding is_digit
is_id_start c = is_digit c || leb b'a' c && leb c b'z'

-- `/^[a-z0-9][a-z0-9-]{0,47}$/u`.
unfoldable pub is_engagement_id : List ℕ → Bool
unfolding is_id_start
is_engagement_id [] = false
is_engagement_id (c ∷ cs) =
    is_id_start c && every (λ d. is_id_start d || eqb d b'-') cs && leb (length cs) 47

-- The text without a line feed at its end.
unfoldable pub without_line_feed : List ℕ → List ℕ
without_line_feed [] = []
without_line_feed (c ∷ []) = if eqb c 10 then [] else c ∷ []
without_line_feed (c ∷ d ∷ cs) = c ∷ without_line_feed (d ∷ cs)

unfoldable pub read_identifier : Option (List ℕ) → Outcome (Option (List ℕ))
unfolding is_engagement_id without_line_feed
read_identifier none = failed unreadable
read_identifier (some text) =
    if is_engagement_id (without_line_feed text)
    then returned (some (without_line_feed text))
    else failed invalid_file

-- `none` stands for `null`.
unfoldable pub read_existing : ℕ → Look → Outcome (Option (List ℕ))
read_existing user missing = returned none
read_existing user uninspectable = failed unreadable
read_existing user (found file) =
    if file.is_link || not file.is_file
    then failed unsafe_file
    else if not (eqb file.owner user)
    then failed wrong_owner
    else if not (eqb (file.mode % 64) 0)
    then failed unsafe_permissions
    else if ltb file.size 1 || ltb 49 file.size
    then failed invalid_file
    else read_identifier file.text

-- The `catch` block turns what the second look throws into its own error.
unfoldable pub after_creation : Outcome (Option (List ℕ)) → Outcome (Option (List ℕ))
after_creation (returned value) = returned value
after_creation (failed e) = failed create_failed

unfoldable pub creation_outcome :
    ℕ → Attempt → Outcome (Option (List ℕ)) → Creation → Outcome (Option (List ℕ))
creation_outcome user attempt again created =
    after_creation (read_existing user attempt.second_look)
creation_outcome user attempt again exists = again
creation_outcome user attempt again not_created = failed create_failed

-- What follows the first look; `again` is the next attempt.
unfoldable pub after_look :
    ℕ → Attempt → Outcome (Option (List ℕ)) → Outcome (Option (List ℕ)) → Outcome (Option (List ℕ))
after_look user attempt again (failed e) = failed e
after_look user attempt again (returned (some value)) = returned (some value)
after_look user attempt again (returned none) = creation_outcome user attempt again attempt.creation

unfoldable pub resolve_attempts : ℕ → List Attempt → Outcome (Option (List ℕ))
resolve_attempts user [] = failed create_race
resolve_attempts user (attempt ∷ attempts) =
    after_look user attempt (resolve_attempts user attempts) (read_existing user attempt.first_look)

-- The three attempts.
unfoldable pub resolve_engagement_id :
    ℕ → List ℕ → Attempt → Attempt → Attempt → Outcome (Option (List ℕ))
resolve_engagement_id user [] first second third =
    resolve_attempts user (first ∷ second ∷ third ∷ [])
resolve_engagement_id user (c ∷ cs) first second third =
    if is_engagement_id (c ∷ cs) then returned (some (c ∷ cs)) else failed invalid_override
