-- ===== src/Engagement/Resolved.antt =====
-- What `resolveEngagementId` of scripts/engagement-id.mjs may return.
use repo_assessment_kit.Prelude.{
  ℕ, ◌≡◌, refl, true, Option, none, some, List, [], ◌∷◌, arith, inl, inr, ◌⊎◌,
}
use repo_assessment_kit.Engagement.{
  Outcome, returned, failed, Look, missing, uninspectable, found, Creation, created, exists,
  not_created, Attempt, File, creation_outcome, is_engagement_id, read_identifier, read_existing,
  after_creation, after_look, resolve_attempts, resolve_engagement_id,
}

-- A file that was created, and is gone at the second look, in one of the attempts.
abbrev pub Vanished : List Attempt → Type 0
Vanished [] = ⊥
Vanished (a ∷ attempts) = ((a.creation ≡ created) × (a.second_look ≡ missing)) ⊎ Vanished attempts

-- An identifier, or `null` where a created file has vanished.
abbrev pub IsResolved : List Attempt → Option (List ℕ) → Type 0
IsResolved attempts none = Vanished attempts
IsResolved attempts (some value) = is_engagement_id value ≡ true

-- What one look has shown.
abbrev Shows : Look → Option (List ℕ) → Type 0
Shows look none = look ≡ missing
Shows look (some value) = is_engagement_id value ≡ true

read_identifier-Shows :
    (look : Look) (text : Option (List ℕ)) (o : Option (List ℕ))
    → read_identifier text ≡ returned o
    → Shows look o
unfolding read_identifier
read_identifier-Shows look none o h = cc
read_identifier-Shows look (some text) none h = absurd (ground arith)
read_identifier-Shows look (some text) (some value) h = ground arith

found-text :
    (user : ℕ) (file : File) (o : Option (List ℕ))
    → read_existing user (found file) ≡ returned o
    → read_identifier file.text ≡ returned o
unfolding read_existing
found-text user file o h = ground arith

read_existing-Shows :
    (user : ℕ) (look : Look) (o : Option (List ℕ))
    → read_existing user look ≡ returned o
    → Shows look o
read_existing-Shows user missing none h = refl
read_existing-Shows user missing (some value) h = unfold read_existing in cc
read_existing-Shows user uninspectable o h = unfold read_existing in cc
read_existing-Shows user (found file) o h =
    read_identifier-Shows (found file) file.text o (found-text user file o h)

created-IsResolved :
    (user : ℕ) (a : Attempt) (attempts : List Attempt) (r : Outcome (Option (List ℕ)))
    (o : Option (List ℕ))
    → a.creation ≡ created
    → read_existing user a.second_look ≡ r
    → after_creation r ≡ returned o
    → IsResolved (a ∷ attempts) o
unfolding after_creation
created-IsResolved user a attempts (failed e) o c s h = cc
created-IsResolved user a attempts (returned none) none c s h =
    inl (c, read_existing-Shows user a.second_look none s)
created-IsResolved user a attempts (returned none) (some value) c s h = cc
created-IsResolved user a attempts (returned (some v)) none c s h = cc
created-IsResolved user a attempts (returned (some v)) (some value) c s h =
    let same : v ≡ value = cc in rw (← same) (read_existing-Shows user a.second_look (some v) s)

IsResolved-later :
    (a : Attempt) (attempts : List Attempt) (o : Option (List ℕ))
    → IsResolved attempts o
    → IsResolved (a ∷ attempts) o
IsResolved-later a attempts none h = inr h
IsResolved-later a attempts (some value) h = h

branch-IsResolved :
    (user : ℕ) (a : Attempt) (attempts : List Attempt) (again : Outcome (Option (List ℕ)))
    (c : Creation) (o : Option (List ℕ))
    → a.creation ≡ c
    → (again ≡ returned o → IsResolved attempts o)
    → creation_outcome user a again c ≡ returned o
    → IsResolved (a ∷ attempts) o
unfolding creation_outcome
branch-IsResolved user a attempts again created o e later h =
    created-IsResolved user a attempts (read_existing user a.second_look) o e refl h
branch-IsResolved user a attempts again exists o e later h = IsResolved-later a attempts o (later h)
branch-IsResolved user a attempts again not_created o e later h = cc

look-IsResolved :
    (user : ℕ) (a : Attempt) (attempts : List Attempt) (again r : Outcome (Option (List ℕ)))
    (o : Option (List ℕ))
    → read_existing user a.first_look ≡ r
    → (again ≡ returned o → IsResolved attempts o)
    → after_look user a again r ≡ returned o
    → IsResolved (a ∷ attempts) o
unfolding after_look
look-IsResolved user a attempts again (failed e) o s later h = cc
look-IsResolved user a attempts again (returned none) o s later h =
    branch-IsResolved user a attempts again a.creation o refl later h
look-IsResolved user a attempts again (returned (some v)) none s later h = cc
look-IsResolved user a attempts again (returned (some v)) (some value) s later h =
    let same : v ≡ value = cc in rw (← same) (read_existing-Shows user a.first_look (some v) s)

attempts-IsResolved :
    (user : ℕ) (attempts : List Attempt) (o : Option (List ℕ))
    → resolve_attempts user attempts ≡ returned o
    → IsResolved attempts o
unfolding resolve_attempts
attempts-IsResolved user [] o h = cc
attempts-IsResolved user (a ∷ attempts) o h =
    look-IsResolved user a attempts (resolve_attempts user attempts)
      (read_existing user a.first_look) o refl (attempts-IsResolved user attempts o) h

-- Whatever other processes do to the file: what is returned is an identifier that matches the
-- pattern, or `null`; and `null` only where the file was created in one of the attempts and was gone
-- when it was read back.
pub resolve-IsResolved :
    (user : ℕ) (override : List ℕ) (first second third : Attempt) (o : Option (List ℕ))
    → resolve_engagement_id user override first second third ≡ returned o
    → IsResolved (first ∷ second ∷ third ∷ []) o
unfolding resolve_engagement_id
resolve-IsResolved user [] first second third o h =
    attempts-IsResolved user (first ∷ second ∷ third ∷ []) o h
resolve-IsResolved user (c ∷ cs) first second third none h = absurd (ground arith)
resolve-IsResolved user (c ∷ cs) first second third (some value) h = ground arith
