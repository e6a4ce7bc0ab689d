-- ===== src/PlanSchema/Print/PlanTrip.antt =====
-- A plan that was read is read back from its `to_dict`.
use ai_devops.Common.{
  List, [], ◌∷◌, map, true, ◌≡◌, ◌≢◌, refl, sym, length, ◌==◌, ==_iff, length-map,
}
use ai_devops.Common.Result.{ok}
use ai_devops.PlanSchema.Json.{Value, obj, arr, of_list, to_list-of_list, get, has}
use ai_devops.PlanSchema.Parse.{raw_subtasks_of, plan_from_dict}
use ai_devops.PlanSchema.Parse.FieldLaws.{require_string-get}
use ai_devops.PlanSchema.Parse.PlanValid.{IsValidPlan, plan_from_dict-IsValid}
use ai_devops.PlanSchema.Print.{subtask_to_dict, routing_to_dict, plan_to_dict}
use ai_devops.PlanSchema.Print.SubtaskTrip.{parse_subtasks-to_dict}
use ai_devops.PlanSchema.Print.RoutingTrip.{
  routing_from_dict-to_dict, optional_dict-routing, optional_dict-get, optional_string_list-depends,
  priority_of-tail,
}
use ai_devops.PlanSchema.Types.{Subtask, Plan}

raw_subtasks_of-list : (vs : List Value) → vs ≢ [] → raw_subtasks_of (arr (of_list vs)) ≡ ok vs
unfolding raw_subtasks_of of_list
raw_subtasks_of-list [] n = absurd (n refl)
raw_subtasks_of-list (v ∷ vs) n = rw (to_list-of_list vs)

map-ne-nil : (f : Subtask → Value) (ts : List Subtask) → ts ≢ [] → map f ts ≢ []
map-ne-nil f [] n e = n refl
map-ne-nil f (t ∷ ts) n e = cc

same_length : (f : Subtask → Value) (ts : List Subtask) → (length ts == length (map f ts)) ≡ true
same_length f ts = (==_iff (length ts) (length (map f ts))).1 (sym (length-map f ts))

-- A plan that satisfies the schema is read back from its `to_dict`.
pub plan_from_dict-to_dict :
    (p : Plan) → IsValidPlan p → plan_from_dict (obj (plan_to_dict p)) ≡ ok p
unfolding plan_from_dict plan_to_dict get has
plan_from_dict-to_dict p v =
    let d = plan_to_dict p in
    let write = λ (t : Subtask). obj (subtask_to_dict t) in
    let fs = routing_to_dict p.routing in
    rw
      (
        require_string-get d "planId" p.plan_id v.id_trimmed refl,
        v.id_matches,
        optional_dict-routing d fs p.plan_depends_on p.global_priority refl,
        routing_from_dict-to_dict p.routing v.routing_trimmed v.agent_checked v.effort_checked,
        raw_subtasks_of-list (map write p.subtasks) (map-ne-nil write p.subtasks v.some_subtask),
        parse_subtasks-to_dict p.routing p.subtasks v.subtasks_valid,
        same_length write p.subtasks,
        v.graph_valid,
        optional_string_list-depends d fs p.plan_depends_on p.global_priority v.depends_trimmed
            refl,
        require_string-get d "repo" p.repo v.repo_trimmed refl,
        require_string-get d "title" p.title v.title_trimmed refl,
        require_string-get d "requestedBy" p.requested_by v.requester_trimmed refl,
        require_string-get d "objective" p.objective v.objective_trimmed refl,
      )
      (rw (
        optional_dict-get d "constraints" p.constraints refl,
        optional_dict-get d "context" p.context refl,
        require_string-get d "version" p.version v.version_trimmed refl,
        priority_of-tail d fs p.plan_depends_on p.global_priority refl refl,
      ))

-- Whatever plan was read, writing it and reading it again gives the same plan.
pub plan_round_trip :
    (v : Value) {p : Plan} → plan_from_dict v ≡ ok p → plan_from_dict (obj (plan_to_dict p)) ≡ ok p
plan_round_trip v {p} h = plan_from_dict-to_dict p (plan_from_dict-IsValid v h)
