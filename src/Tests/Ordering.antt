-- ===== src/Tests/Ordering.antt =====
-- Examples for the order of dependent actions.
use mathlib.Core.List.{Perm, flatten}
use yoma.Prelude.{
  ℕ, ◌≡◌, ◌⊎◌, refl, true, false, [], ◌∷◌, none, some, String, List, contains, if◌then◌else◌, ◌==◌,
  arith,
}
use yoma.Dict
use yoma.MultiAction.Model.{MultiAction, MultiActionExecutionPlan}
use yoma.Ordering.Levels.{level_from, placed, circular}
use yoma.Ordering.Sound.{IsLevelled, IsKnot}
use yoma.Ordering.Knots.{Within, levelling_decides}
use yoma.Ordering.Engine.{Engine, order, analyze}
use yoma.Result.{ok}
use yoma.Ordering.Model.{DependencyExecutionAnalysis}
use yoma.Ordering.Agrees.{noted, Agrees, analysis-Agrees}
use yoma.Ordering.Decides.{Ordered, order_cases}
use yoma.Tests.Samples.{noon}

abbrev action : String → ℕ → List String → MultiAction
action id sequence needs = record {
  action_id = id;
  sequence = sequence;
  action_type = "restart";
  description = "a step";
  target_user_id = none;
  target_system_id = none;
  dependency_ids = needs;
  parameters = [];
  requires_human_approval = true;
  executable = false;
}

abbrev pub plan : MultiActionExecutionPlan
plan = record {
  execution_plan_id = "MAPLAN-1";
  orchestration_id = "ORCH-1";
  plan_id = "APLAN-1";
  decision_id = "DINT-1";
  created_at = noon;
  actions = action "MACT-B" 1 ("MACT-A" ∷ []) ∷ action "MACT-A" 2 [] ∷ [];
  requires_human_approval = true;
  executable = false;
  metadata = [];
}

abbrev empty : Engine
empty = record { orders = []; analyses = [] }

order_cases_example : Ordered plan empty
unfolding Dict.get
order_cases_example = order_cases plan empty refl refl

-- Two names that wait for each other, and a third that waits for nothing.
abbrev needs : String → List String
needs id = if id == "a" then "b" ∷ [] else if id == "b" then "a" ∷ [] else []

abbrev names : List String
names = "a" ∷ "b" ∷ "c" ∷ []

names_closed :
    (x d : String) → contains names x ≡ true → contains (needs x) d ≡ true → contains names d ≡ true
names_closed x d m n = ground arith

levelling_decides_example :
    ((levels : List (List String)) × (level_from needs 3 [] names ≡ some (placed levels))
      × IsLevelled needs [] levels
      × Perm (flatten levels) names
      × ((knot : List String) → IsKnot needs knot → Within knot names → ⊥))
    ⊎ ((stuck : List String) × (level_from needs 3 [] names ≡ some (circular stuck))
        × IsKnot needs stuck
        × Within stuck names)
levelling_decides_example = levelling_decides needs names names_closed

analysis-Agrees_example :
    (a : DependencyExecutionAnalysis) × (analyze plan empty ≡ (ok a, noted empty a))
    × Agrees plan (order plan empty).0 a
unfolding Dict.get Dict.put
analysis-Agrees_example = analysis-Agrees plan empty refl refl refl refl
