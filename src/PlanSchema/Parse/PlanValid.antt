-- ===== src/PlanSchema/Parse/PlanValid.antt =====
-- What `Plan.from_dict` guarantees of the plan that it returns.
use ai_devops.Common.{
  List, [], ◌∷◌, Bool, true, false, ◌≡◌, refl, subst, arith, length, ◌==◌, All, ◌≢◌,
}
use ai_devops.Common.Result.{Result, ok, bind_ok, ok_injective}
use ai_devops.PlanSchema.Json.{Value, null, bool, int, float, str, obj, arr, Items, get, Fields}
use ai_devops.PlanSchema.Text.{identifier_match}
use ai_devops.PlanSchema.Graph.{validate_dependencies}
use ai_devops.PlanSchema.Parse.{
  require_string, optional_string, optional_string_list, optional_dict, routing_from_dict,
  check_default, guard, allowed_agents, allowed_efforts, required_int, raw_subtasks_of,
  parse_subtasks, plan_from_dict, subtask_from_dict,
}
use ai_devops.PlanSchema.Parse.FieldLaws.{
  IsTrimmed, require_string-IsTrimmed, optional_string_list-Trimmed,
}
use ai_devops.PlanSchema.Parse.SubtaskValid.{
  IsValidSubtask, TrimmedRouting, subtask_from_dict-IsValid, routing_from_dict-Trimmed,
}
use ai_devops.PlanSchema.Types.{Subtask, RoutingDefaults, Plan, Error}

-- The rules of the schema for a whole plan.
pub record IsValidPlan (p : Plan) : Type 0 where
  pub id_trimmed : IsTrimmed p.plan_id
  pub id_matches : identifier_match p.plan_id ≡ true
  pub repo_trimmed : IsTrimmed p.repo
  pub title_trimmed : IsTrimmed p.title
  pub requester_trimmed : IsTrimmed p.requested_by
  pub objective_trimmed : IsTrimmed p.objective
  pub version_trimmed : IsTrimmed p.version
  pub subtasks_valid : All IsValidSubtask p.subtasks
  pub some_subtask : p.subtasks ≢ []
  pub graph_valid : validate_dependencies p.subtasks ≡ ok tt
  pub routing_trimmed : TrimmedRouting p.routing
  pub agent_checked : check_default allowed_agents Error.unsupported_agent p.routing.agent ≡ ok tt
  pub effort_checked :
      check_default allowed_efforts Error.unsupported_effort p.routing.effort ≡ ok tt
  pub depends_trimmed : All IsTrimmed p.plan_depends_on

parse_subtasks-IsValid :
    (routing : RoutingDefaults) (vs : List Value) {ts : List Subtask}
    → TrimmedRouting routing
    → parse_subtasks routing vs ≡ ok ts
    → All IsValidSubtask ts
unfolding parse_subtasks
parse_subtasks-IsValid routing [] r h = subst (All IsValidSubtask) (ok_injective h) tt
parse_subtasks-IsValid routing (obj d ∷ vs) r h = bind_ok (subtask_from_dict d routing) _ h λ t p h.
    bind_ok (parse_subtasks routing vs) _ h λ ts q h.
      subst (All IsValidSubtask) (ok_injective h)
        (subtask_from_dict-IsValid d routing r p, parse_subtasks-IsValid routing vs r q)
parse_subtasks-IsValid routing (null ∷ vs) r h = parse_subtasks-IsValid routing vs r h
parse_subtasks-IsValid routing (bool b ∷ vs) r h = parse_subtasks-IsValid routing vs r h
parse_subtasks-IsValid routing (int n ∷ vs) r h = parse_subtasks-IsValid routing vs r h
parse_subtasks-IsValid routing (float s ∷ vs) r h = parse_subtasks-IsValid routing vs r h
parse_subtasks-IsValid routing (str s ∷ vs) r h = parse_subtasks-IsValid routing vs r h
parse_subtasks-IsValid routing (arr ws ∷ vs) r h = parse_subtasks-IsValid routing vs r h

raw_subtasks-ne-nil : (v : Value) {vs : List Value} → raw_subtasks_of v ≡ ok vs → vs ≢ []
unfolding raw_subtasks_of
raw_subtasks-ne-nil (arr (Items.cons v vs)) h e = cc
raw_subtasks-ne-nil (arr Items.nil) h e = cc
raw_subtasks-ne-nil null h e = cc
raw_subtasks-ne-nil (bool b) h e = cc
raw_subtasks-ne-nil (int n) h e = cc
raw_subtasks-ne-nil (float s) h e = cc
raw_subtasks-ne-nil (str s) h e = cc
raw_subtasks-ne-nil (obj fs) h e = cc

guard-true : (b : Bool) (e : Error) {u : Unit {0}} → guard b e ≡ ok u → b ≡ true
guard-true true e h = refl
guard-true false e h = cc

same_length-ne-nil :
    (ts : List Subtask) (vs : List Value) → vs ≢ [] → (length ts == length vs) ≡ true → ts ≢ []
same_length-ne-nil ts [] n e h = n refl
same_length-ne-nil [] (v ∷ vs) n e h = ground arith
same_length-ne-nil (t ∷ ts) (v ∷ vs) n e h = cc

unit_ok : {u : Unit {0}} {r : Result Error (Unit {0})} → r ≡ ok u → r ≡ ok tt
unit_ok h = h

routing_checked :
    (d : Fields) {r : RoutingDefaults}
    → routing_from_dict d ≡ ok r
    → (check_default allowed_agents Error.unsupported_agent r.agent ≡ ok tt)
      × (check_default allowed_efforts Error.unsupported_effort r.effort ≡ ok tt)
unfolding routing_from_dict
routing_checked d {r} h = bind_ok (optional_string d "agent") _ h λ agent p h.
    bind_ok (optional_string d "model") _ h λ model q h.
      bind_ok (optional_string d "effort") _ h λ effort w h.
        bind_ok (check_default allowed_agents Error.unsupported_agent agent) _ h λ u a h.
          bind_ok (check_default allowed_efforts Error.unsupported_effort effort) _ h λ x b h.
            subst
              (λ (z : RoutingDefaults).
                (check_default allowed_agents Error.unsupported_agent z.agent ≡ ok tt)
                × (check_default allowed_efforts Error.unsupported_effort z.effort ≡ ok tt))
              (ok_injective h) (a, b)

-- What `Plan.from_dict` accepts satisfies every rule of the schema.
pub plan_from_dict-IsValid : (v : Value) {p : Plan} → plan_from_dict v ≡ ok p → IsValidPlan p
unfolding plan_from_dict
plan_from_dict-IsValid null h = cc
plan_from_dict-IsValid (bool b) h = cc
plan_from_dict-IsValid (int n) h = cc
plan_from_dict-IsValid (float s) h = cc
plan_from_dict-IsValid (str s) h = cc
plan_from_dict-IsValid (arr vs) h = cc
plan_from_dict-IsValid (obj d) h = bind_ok (require_string d "planId") _ h λ plan_id p₁ h.
    bind_ok (guard (identifier_match plan_id) _) _ h λ u₁ p₂ h.
      bind_ok (required_int (get d "requestedAt")) _ h λ requested_at p₃ h.
        bind_ok (optional_dict d "routing") _ h λ routing_fields p₄ h.
          bind_ok (routing_from_dict routing_fields) _ h λ routing p₅ h.
            bind_ok (raw_subtasks_of (get d "subtasks")) _ h λ raw p₆ h.
              bind_ok (parse_subtasks routing raw) _ h λ subtasks p₇ h.
                bind_ok (guard (length subtasks == length raw) _) _ h λ u₂ p₈ h.
                  bind_ok (validate_dependencies subtasks) _ h λ u₃ p₉ h.
                    bind_ok (optional_string_list d "planDependsOn") _ h λ depends q₁ h.
                      bind_ok (require_string d "repo") _ h λ repo q₂ h.
                        bind_ok (require_string d "title") _ h λ title q₃ h.
                          bind_ok (require_string d "requestedBy") _ h λ requester q₄ h.
                            bind_ok (require_string d "objective") _ h λ objective q₅ h.
                              bind_ok (optional_dict d "constraints") _ h λ constraints q₆ h.
                                bind_ok (optional_dict d "context") _ h λ context q₇ h.
                                  bind_ok (require_string d "version") _ h λ version q₈ h.
                                    subst IsValidPlan (ok_injective h) (record {
                                      id_trimmed = require_string-IsTrimmed d "planId" p₁;
                                      id_matches =
                                          guard-true (identifier_match plan_id)
                                            (Error.invalid_plan_id plan_id) p₂;
                                      repo_trimmed = require_string-IsTrimmed d "repo" q₂;
                                      title_trimmed = require_string-IsTrimmed d "title" q₃;
                                      requester_trimmed =
                                          require_string-IsTrimmed d "requestedBy" q₄;
                                      objective_trimmed = require_string-IsTrimmed d "objective" q₅;
                                      version_trimmed = require_string-IsTrimmed d "version" q₈;
                                      subtasks_valid =
                                          parse_subtasks-IsValid routing raw
                                            (routing_from_dict-Trimmed routing_fields p₅) p₇;
                                      some_subtask =
                                          same_length-ne-nil subtasks raw
                                            (raw_subtasks-ne-nil (get d "subtasks") p₆)
                                            (guard-true (length subtasks == length raw)
                                              Error.subtask_not_object p₈);
                                      graph_valid = p₉;
                                      routing_trimmed = routing_from_dict-Trimmed routing_fields p₅;
                                      agent_checked = (routing_checked routing_fields p₅).0;
                                      effort_checked = (routing_checked routing_fields p₅).1;
                                      depends_trimmed =
                                          optional_string_list-Trimmed d "planDependsOn" q₁;
                                    })
