-- ===== src/Dispatch/Scope.antt =====
-- _validate_subtask_scope of orchestrator/bin/dispatch.py, and the exceptions of a dispatch.
pub mod Exact
use ai_devops.Common.{
  ◌≡◌, refl, ◌⊎◌, inl, inr, String, Bool, true, false, List, [], ◌∷◌, str_eq, if◌then◌else◌, not,
  ◌||◌, ◌&&◌, take,
}
use ai_devops.Common.Result.{Result, ok, err, ◌>>=◌}
use ai_devops.PlanSchema.Json.{Value, Fields, end, field, get, obj}
use ai_devops.PlanSchema.Types.{Plan, Subtask, Error}
use ai_devops.Dispatch.Paths.{Env, constraint_path_list, path_matches_constraint, any_of}

-- DispatchError, by message, and the errors of the plan's own functions
pub data DispatchError : Type 0 where
  no_task_spec no_files_hint misses_must_touch : String → DispatchError
  outside_allowed hits_forbidden : String → List String → DispatchError
  invalid_plan : Error → DispatchError

-- x if isinstance(x, dict) else {}
unfoldable pub dict_or_empty : Value → Fields
dict_or_empty (obj fields) = fields
dict_or_empty v = end

unfoldable pub no_fields : Fields → Bool
no_fields end = true
no_fields (field k v rest) = false

unfoldable pub no_paths : List String → Bool
no_paths [] = true
no_paths (p ∷ ps) = false

unfoldable pub where_true : (String → Bool) → List String → List String
where_true test [] = []
where_true test (x ∷ xs) = let rest = where_true test xs in if test x then x ∷ rest else rest

-- the rules of a plan
abbrev pub allowed_of : Env → Plan → List String
allowed_of env plan = constraint_path_list env plan.constraints ("allowedPaths" ∷ [])

abbrev pub forbidden_of : Env → Plan → List String
forbidden_of env plan =
    constraint_path_list env plan.constraints ("forbiddenPaths" ∷ "blockedPaths" ∷ [])

abbrev pub must_touch_of : Env → Plan → List String
must_touch_of env plan =
    constraint_path_list env plan.constraints ("mustTouch" ∷ "requiredTouchedPaths" ∷ [])

-- any(_path_matches_constraint(path, rule, worktree) for rule in rules)
unfoldable pub matches_any : Env → List String → String → Bool
matches_any env rules path = any_of (path_matches_constraint env path) rules

unfoldable pub require : Bool → DispatchError → Result DispatchError (Unit {0})
require true e = ok tt
require false e = err e

-- the checks behind the first return
unfoldable pub check_scope :
    Env
    → List String
    → List String
    → List String
    → Fields
    → Subtask
    → Result DispatchError (Unit {0})
unfolding no_fields no_paths where_true matches_any require
check_scope env allowed forbidden must_touch spec t = do
  _ ← require (not (no_fields spec)) (DispatchError.no_task_spec t.id)
  _ ← require (not (no_paths t.files_hint)) (DispatchError.no_files_hint t.id)
  let outside =
      where_true (λ p. not (no_paths allowed) && not (matches_any env allowed p)) t.files_hint
  _ ← require (no_paths outside) (DispatchError.outside_allowed t.id (take 5 outside))
  let hits = where_true (matches_any env forbidden) t.files_hint
  _ ← require (no_paths hits) (DispatchError.hits_forbidden t.id (take 5 hits))
  require (no_paths must_touch || any_of (matches_any env must_touch) t.files_hint)
      (DispatchError.misses_must_touch t.id)

-- _validate_subtask_scope
unfoldable pub validate_subtask_scope : Env → Plan → Subtask → Result DispatchError (Unit {0})
unfolding dict_or_empty check_scope no_paths
validate_subtask_scope env plan t =
    let allowed = allowed_of env plan in
    let forbidden = forbidden_of env plan in
    let must_touch = must_touch_of env plan in
    let spec = dict_or_empty (get plan.context "taskSpec") in
    if no_paths allowed && no_paths forbidden && no_paths must_touch
    then ok tt
    else check_scope env allowed forbidden must_touch spec t

-- To split on the result of a check and keep the equation.
pub Result-cases :
    (r : Result DispatchError (Unit {0})) → (r ≡ ok tt) ⊎ ((e : DispatchError) × (r ≡ err e))
Result-cases (ok u) = inl refl
Result-cases (err e) = inr (e, refl)
