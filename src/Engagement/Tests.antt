-- ===== src/Engagement/Tests.antt =====
-- scripts/engagement-id.mjs where another process removes the file as soon as it is created.
use repo_assessment_kit.Prelude.{◌≡◌, refl, none, [], ◌∷◌}
use repo_assessment_kit.Engagement.{
  returned, missing, created, Attempt, read_existing, after_creation, creation_outcome, after_look,
  resolve_attempts, resolve_engagement_id,
}
use repo_assessment_kit.Engagement.Resolved.{IsResolved, resolve-IsResolved}

abbrev removed : Attempt
removed = record { first_look = missing; creation = created; second_look = missing }

removed_file : resolve_engagement_id 501 [] removed removed removed ≡ returned none
unfolding resolve_engagement_id resolve_attempts after_look creation_outcome after_creation
    read_existing
removed_file = refl

resolve-IsResolved_example : IsResolved (removed ∷ removed ∷ removed ∷ []) none
resolve-IsResolved_example = resolve-IsResolved 501 [] removed removed removed none removed_file
