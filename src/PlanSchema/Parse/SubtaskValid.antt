-- ===== src/PlanSchema/Parse/SubtaskValid.antt =====
-- What `Subtask.from_dict` guarantees of the subtask that it returns.
use ai_devops.Common.{
  String, List, Option, none, some, Bool, true, false, ◌≡◌, refl, ◌≤◌, subst, arith, All, not, ltb,
}
use ai_devops.Common.Names.{mem}
use ai_devops.Common.Result.{ok, >>=-eq-ok, bind_ok, ok_injective}
use ai_devops.PlanSchema.Json.{Fields}
use ai_devops.PlanSchema.Text.{identifier_match}
use ai_devops.PlanSchema.Parse.{
  require_string, optional_string, optional_string_list, needed, needed_in, or_else, allowed_agents,
  allowed_efforts, allowed_worktree_strategies, guard, text_length, prompt_max_chars, task_type_of,
  subtask_from_dict, routing_from_dict, check_default,
}
use ai_devops.PlanSchema.Parse.FieldLaws.{
  IsTrimmed, TrimmedOption, require_string-IsTrimmed, optional_string-Trimmed,
  optional_string_list-Trimmed,
}
use ai_devops.PlanSchema.Types.{Subtask, RoutingDefaults, Error}

pub record IsValidSubtask (t : Subtask) : Type 0 where
  pub id_trimmed : IsTrimmed t.id
  pub id_matches : identifier_match t.id ≡ true
  pub title_trimmed : IsTrimmed t.title
  pub description_trimmed : IsTrimmed t.description
  pub agent_trimmed : IsTrimmed t.agent
  pub agent_allowed : mem t.agent allowed_agents ≡ true
  pub model_trimmed : IsTrimmed t.model
  pub effort_trimmed : IsTrimmed t.effort
  pub effort_allowed : mem t.effort allowed_efforts ≡ true
  pub strategy_trimmed : IsTrimmed t.worktree_strategy
  pub strategy_allowed : mem t.worktree_strategy allowed_worktree_strategies ≡ true
  pub prompt_trimmed : IsTrimmed t.prompt
  pub prompt_short : text_length t.prompt ≤ prompt_max_chars
  pub deps_trimmed : All IsTrimmed t.depends_on
  pub files_trimmed : All IsTrimmed t.files_hint
  pub done_trimmed : All IsTrimmed t.definition_of_done

-- The defaults of a plan hold stripped texts.
pub record TrimmedRouting (r : RoutingDefaults) : Type 0 where
  pub agent : TrimmedOption r.agent
  pub model : TrimmedOption r.model
  pub effort : TrimmedOption r.effort

or_else-Trimmed :
    (a b : Option String) → TrimmedOption a → TrimmedOption b → TrimmedOption (or_else a b)
unfolding or_else
or_else-Trimmed none b h k = k
or_else-Trimmed (some s) b h k = rw h.filled h

needed-Trimmed :
    (o : Option String) (e : Error) {s : String} → TrimmedOption o → needed o e ≡ ok s → IsTrimmed s
unfolding needed
needed-Trimmed none e h k = cc
needed-Trimmed (some t) e h k = subst IsTrimmed (ok_injective (rw (h.filled) at k)) h

guard-true : (b : Bool) (e : Error) {u : Unit {0}} → guard b e ≡ ok u → b ≡ true
guard-true true e h = refl
guard-true false e h = cc

needed_in-allowed :
    (allowed : List String) (o : Option String) (e : Error) {s : String}
    → needed_in allowed o e ≡ ok s
    → (needed o e ≡ ok s) × (mem s allowed ≡ true)
unfolding needed_in
needed_in-allowed allowed o e {s} h =
    let (t, p, q) = >>=-eq-ok (needed o e) _ h in
    let (u, r, w) = >>=-eq-ok (guard (mem t allowed) e) _ q in
    let same : t ≡ s = ok_injective w in
    (
      subst (λ z. needed o e ≡ ok z) same p,
      subst (λ z. mem z allowed ≡ true) same (guard-true (mem t allowed) e r),
    )

-- With stripped defaults, a subtask that is read satisfies every rule of the schema: its texts are
-- stripped and filled, its id is an identifier, agent, effort and strategy are allowed ones, and
-- the prompt is not too long.
pub subtask_from_dict-IsValid :
    (d : Fields) (routing : RoutingDefaults) {t : Subtask}
    → TrimmedRouting routing
    → subtask_from_dict d routing ≡ ok t
    → IsValidSubtask t
unfolding subtask_from_dict
subtask_from_dict-IsValid d routing v h = bind_ok (require_string d "id") _ h λ id p₁ h.
    bind_ok (guard (identifier_match id) _) _ h λ u₁ p₂ h.
      bind_ok (optional_string d "agent") _ h λ own_agent p₃ h.
        bind_ok (optional_string d "model") _ h λ own_model p₄ h.
          bind_ok (optional_string d "effort") _ h λ own_effort p₅ h.
            bind_ok (needed_in allowed_agents (or_else own_agent routing.agent) _) _ h λ agent p₆ h.
              bind_ok (needed (or_else own_model routing.model) _) _ h λ model p₇ h.
                bind_ok (needed_in allowed_efforts (or_else own_effort routing.effort) _) _ h
                  λ effort p₈ h. bind_ok (require_string d "worktreeStrategy") _ h λ strategy p₉ h.
                    bind_ok (guard (mem strategy allowed_worktree_strategies) _) _ h λ u₂ q₁ h.
                      bind_ok (require_string d "prompt") _ h λ prompt q₂ h.
                        bind_ok (guard (not (ltb prompt_max_chars (text_length prompt))) _) _ h
                          λ u₃ q₃ h. bind_ok (optional_string_list d "dependsOn") _ h λ deps q₄ h.
                            bind_ok (optional_string_list d "filesHint") _ h λ files q₅ h.
                              bind_ok (optional_string_list d "definitionOfDone") _ h λ done q₆ h.
                                bind_ok (optional_string d "taskType") _ h λ raw q₇ h.
                                  bind_ok (task_type_of raw) _ h λ task_type q₈ h.
                                    bind_ok (require_string d "title") _ h λ title q₉ h.
                                      bind_ok (require_string d "description") _ h
                                        λ description q₀ h.
                                          subst IsValidSubtask (ok_injective h) (record {
                                            id_trimmed = require_string-IsTrimmed d "id" p₁;
                                            id_matches = guard-true (identifier_match id) _ p₂;
                                            title_trimmed = require_string-IsTrimmed d "title" q₉;
                                            description_trimmed =
                                                require_string-IsTrimmed d "description" q₀;
                                            agent_trimmed =
                                                needed-Trimmed (or_else own_agent routing.agent)
                                                  (Error.bad_agent id)
                                                  (or_else-Trimmed own_agent routing.agent
                                                    (optional_string-Trimmed d "agent" p₃) v.agent)
                                                  (needed_in-allowed allowed_agents
                                                    (or_else own_agent routing.agent)
                                                    (Error.bad_agent id) p₆).0;
                                            agent_allowed =
                                                (needed_in-allowed allowed_agents
                                                  (or_else own_agent routing.agent)
                                                  (Error.bad_agent id) p₆).1;
                                            model_trimmed =
                                                needed-Trimmed (or_else own_model routing.model)
                                                  (Error.missing_model id)
                                                  (or_else-Trimmed own_model routing.model
                                                    (optional_string-Trimmed d "model" p₄) v.model)
                                                  p₇;
                                            effort_trimmed =
                                                needed-Trimmed (or_else own_effort routing.effort)
                                                  (Error.bad_effort id)
                                                  (or_else-Trimmed own_effort routing.effort
                                                    (optional_string-Trimmed d "effort" p₅)
                                                    v.effort)
                                                  (needed_in-allowed allowed_efforts
                                                    (or_else own_effort routing.effort)
                                                    (Error.bad_effort id) p₈).0;
                                            effort_allowed =
                                                (needed_in-allowed allowed_efforts
                                                  (or_else own_effort routing.effort)
                                                  (Error.bad_effort id) p₈).1;
                                            strategy_trimmed =
                                                require_string-IsTrimmed d "worktreeStrategy" p₉;
                                            strategy_allowed =
                                                guard-true
                                                  (mem strategy allowed_worktree_strategies) _ q₁;
                                            prompt_trimmed = require_string-IsTrimmed d "prompt" q₂;
                                            prompt_short = short prompt (guard-true _ _ q₃);
                                            deps_trimmed =
                                                optional_string_list-Trimmed d "dependsOn" q₄;
                                            files_trimmed =
                                                optional_string_list-Trimmed d "filesHint" q₅;
                                            done_trimmed =
                                                optional_string_list-Trimmed d "definitionOfDone"
                                                  q₆;
                                          })
  where
    short :
        (s : String)
        → not (ltb prompt_max_chars (text_length s)) ≡ true
        → text_length s ≤ prompt_max_chars
    short s e = ground arith

-- The defaults that a plan is read with hold stripped texts.
pub routing_from_dict-Trimmed :
    (d : Fields) {r : RoutingDefaults} → routing_from_dict d ≡ ok r → TrimmedRouting r
unfolding routing_from_dict
routing_from_dict-Trimmed d h = bind_ok (optional_string d "agent") _ h λ agent p h.
    bind_ok (optional_string d "model") _ h λ model q h.
      bind_ok (optional_string d "effort") _ h λ effort r h.
        bind_ok (check_default allowed_agents Error.unsupported_agent agent) _ h λ u a h.
          bind_ok (check_default allowed_efforts Error.unsupported_effort effort) _ h λ w b h.
            subst TrimmedRouting (ok_injective h) (record {
              agent = optional_string-Trimmed d "agent" p;
              model = optional_string-Trimmed d "model" q;
              effort = optional_string-Trimmed d "effort" r;
            })
