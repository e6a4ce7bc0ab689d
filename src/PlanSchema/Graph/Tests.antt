-- ===== src/PlanSchema/Graph/Tests.antt =====
-- The graph algorithms at a plan of three subtasks, and the theorems about them there.
use ai_devops.Common.{String, List, [], ◌∷◌, ◌≡◌, refl, ◌⊎◌, ◌↔◌, true}
use ai_devops.Common.Names.{distinct}
use ai_devops.Common.Result.{ok, err}
use ai_devops.PlanSchema.Types.{Subtask, TaskType, Error}
use ai_devops.PlanSchema.Graph.{
  ids, validate_dependencies, topologically_sorted_subtasks, fill, link, link_deps, sources, visit,
  relax, attach, attach_deps, place, sort_by, insert_by, enumerate, order_key, subtasks_by_id,
}
use ai_devops.PlanSchema.Graph.Build.{DepsKnown}
use ai_devops.PlanSchema.Graph.Run.{IsTopologicalOrder}
use ai_devops.PlanSchema.Graph.Order.{sort_total}
use ai_devops.PlanSchema.Graph.Validate.{validate_iff, validated_sorts}

abbrev pub sample : String → List String → Subtask
sample id deps = record {
  id = id;
  title = "title";
  description = "what to do";
  agent = "codex";
  model = "gpt-5";
  effort = "high";
  worktree_strategy = "isolated";
  depends_on = deps;
  files_hint = [];
  prompt = "do it";
  definition_of_done = [];
  task_type = TaskType.code_generation;
}

-- `ship` waits for the two others, and stands first.
abbrev pub three : List Subtask
three =
    sample "ship" ("build" ∷ "test" ∷ []) ∷ sample "build" [] ∷ sample "test" ("build" ∷ []) ∷ []

pub three_valid : validate_dependencies three ≡ ok tt
unfolding validate_dependencies fill link link_deps sources visit relax
three_valid = refl

pub three_sorted :
    topologically_sorted_subtasks three
    ≡ ok (
        sample "build" []
        ∷ sample "test" ("build" ∷ [])
        ∷ sample "ship" ("build" ∷ "test" ∷ [])
        ∷ [])
unfolding topologically_sorted_subtasks fill attach attach_deps sources place relax sort_by
    insert_by enumerate order_key subtasks_by_id
three_sorted = refl

circle_rejected :
    validate_dependencies (sample "a" ("b" ∷ []) ∷ sample "b" ("a" ∷ []) ∷ []) ≡ err Error.cycle
unfolding validate_dependencies fill link link_deps sources visit relax
circle_rejected = refl

validate_iff_example : (validate_dependencies three ≡ ok tt) ↔ (
    (distinct (ids three) ≡ true)
    × DepsKnown (ids three) three
    × ((order : List Subtask) × IsTopologicalOrder three order))
validate_iff_example = validate_iff three

validated_sorts_example :
    (order : List Subtask) × (topologically_sorted_subtasks three ≡ ok order)
    × IsTopologicalOrder three order
validated_sorts_example = validated_sorts three three_valid

sort_total_example :
    ((order : List Subtask) × (topologically_sorted_subtasks three ≡ ok order)
      × IsTopologicalOrder three order)
    ⊎ ((topologically_sorted_subtasks three ≡ err Error.cycle)
        × ((order : List Subtask) → ¬ IsTopologicalOrder three order))
sort_total_example = sort_total three refl ((refl, (refl, tt)), (tt, ((refl, tt), tt)))
