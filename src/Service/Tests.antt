-- ===== src/Service/Tests.antt =====
-- `handle` of scripts/host-helper-service.mjs at a concrete frame, which comes twice.
use repo_assessment_kit.Prelude.{some, [], ◌∷◌}
use repo_assessment_kit.Prelude.Result.{ok}
use repo_assessment_kit.Json.{str, obj, fields_of}
use repo_assessment_kit.Journal.{empty}
use repo_assessment_kit.Protocol.Tests.{node, key, signed}
use repo_assessment_kit.Service.{State, Drive, handle}
use repo_assessment_kit.Service.Once.{Distinct, started, handled, driven_once}

abbrev drive : Drive
drive = record { phases = []; outcome = ok (obj (fields_of (("state", str "RUNNING") ∷ []))) }

abbrev start : State
start = record { journal = empty; driven = [] }

abbrev served_once : State
served_once = (handle node key "kit" (λ o p. ok tt) signed 2000 "t1" (some drive) start).0

abbrev served_twice : State
served_twice = (handle node key "kit" (λ o p. ok tt) signed 3000 "t1" (some drive) served_once).0

driven_once_example : Distinct served_twice.driven
driven_once_example =
    driven_once node key "kit" (λ o p. ok tt) empty served_twice
      (handled (handled started signed 2000 "t1" (some drive)) signed 3000 "t1" (some drive))
