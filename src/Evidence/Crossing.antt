-- ===== src/Evidence/Crossing.antt =====
-- Where two matches cross, `sanitizeEvidenceText` of packages/evidence/src/index.ts leaves the end of
-- the second one in the text.
use repo_assessment_kit.Prelude.{◌≡◌, ◌⊎◌, List, [], ◌∷◌}
use repo_assessment_kit.Evidence.{RedactionMatch}

abbrev pub Among : RedactionMatch → List RedactionMatch → Type 0
Among a [] = ⊥
Among a (m ∷ ms) = (m ≡ a) ⊎ Among a ms
