-- ===== src/Scheduling/Store.antt =====
-- The plans table of orchestrator/bin/db.py. A row holds the values that its JSON columns decode
-- to; the clock's reading is the argument `now`.
pub mod Statuses
pub mod Rows
mod Tests
use ai_devops.Common.{
  ℕ, String, Bool, true, false, Option, none, some, List, [], ◌∷◌, ◌++◌, map, take, str_eq, leb,
  if◌then◌else◌, ◌++◌,
}
use ai_devops.Common.Int.{ℤ}
use ai_devops.PlanSchema.Json.{Fields, end}

pub record PlanRow : Type 0 where
  pub plan_id : String
  pub repo : String
  pub title : String
  pub requested_by : String
  pub objective : String
  pub constraints : Fields
  pub context : Fields
  pub version : String
  -- `none`: the column is empty or is no JSON, which every reader takes for an empty list
  pub plan_depends_on : Option (List String)
  pub global_priority : ℤ
  pub status : String
  pub requested_at : ℤ
  pub created_at : ℕ
  pub updated_at : ℕ

-- The dictionary that insert_plan takes, with the keys that may be missing as options. Its JSON
-- values are lists of names and objects.
pub record NewPlan : Type 0 where
  pub plan_id : String
  pub repo : String
  pub title : String
  pub requested_by : String
  pub requested_at : ℤ
  pub objective : Option String
  pub constraints : Option Fields
  pub context : Option Fields
  pub version : String
  pub plan_depends_on : Option (List String)
  pub global_priority : Option ℤ
  pub status : Option String
  pub created_at : Option ℕ

-- plan.get(key, default)
abbrev pub or_default {ℓ} : {A : Type ℓ} → A → Option A → A
or_default d none = d
or_default d (some a) = a

-- the row that insert_plan writes
unfoldable pub new_row : NewPlan → ℕ → PlanRow
new_row n now = record {
  plan_id = n.plan_id;
  repo = n.repo;
  title = n.title;
  requested_by = n.requested_by;
  objective = or_default "" n.objective;
  constraints = or_default end n.constraints;
  context = or_default end n.context;
  version = n.version;
  plan_depends_on = some (or_default [] n.plan_depends_on);
  global_priority = or_default (ℤ.pos 0) n.global_priority;
  status = or_default "pending" n.status;
  requested_at = n.requested_at;
  created_at = or_default now n.created_at;
  updated_at = now;
}

-- the row that REPLACE deletes
unfoldable pub delete_where : String → List PlanRow → List PlanRow
delete_where id [] = []
delete_where id (r ∷ rs) =
    let rest = delete_where id rs in if str_eq r.plan_id id then rest else r ∷ rest

-- insert_plan
unfoldable pub insert_plan : NewPlan → ℕ → List PlanRow → List PlanRow
unfolding new_row delete_where
insert_plan n now rows = delete_where n.plan_id rows ++ new_row n now ∷ []

-- One item of the dictionary `updates`.
pub data Update : Type 0 where
  repo title objective version status : String → Update
  constraints context : Fields → Update
  plan_depends_on : List String → Update
  global_priority : ℤ → Update
  -- a key that is not in allowed_fields
  other : String → Update

-- key in allowed_fields
unfoldable pub allowed : Update → Bool
allowed (Update.other key) = false
allowed u = true

-- SET key = value
unfoldable pub set_column : Update → PlanRow → PlanRow
set_column (Update.repo v) r = record r { repo = v }
set_column (Update.title v) r = record r { title = v }
set_column (Update.objective v) r = record r { objective = v }
set_column (Update.version v) r = record r { version = v }
set_column (Update.status v) r = record r { status = v }
set_column (Update.constraints v) r = record r { constraints = v }
set_column (Update.context v) r = record r { context = v }
set_column (Update.plan_depends_on v) r = record r { plan_depends_on = some v }
set_column (Update.global_priority v) r = record r { global_priority = v }
set_column (Update.other key) r = r

unfoldable pub set_columns : List Update → PlanRow → PlanRow
set_columns [] r = r
set_columns (u ∷ us) r = set_columns us (set_column u r)

-- UPDATE plans SET ... WHERE plan_id = ?
unfoldable pub update_where : String → (PlanRow → PlanRow) → List PlanRow → List PlanRow
update_where id f [] = []
update_where id f (r ∷ rs) = (if str_eq r.plan_id id then f r else r) ∷ update_where id f rs

unfoldable pub any_allowed : List Update → Bool
unfolding allowed
any_allowed [] = false
any_allowed (u ∷ us) = if allowed u then true else any_allowed us

-- update_plan
unfoldable pub update_plan : String → List Update → ℕ → List PlanRow → List PlanRow
unfolding any_allowed set_columns set_column update_where
update_plan id updates now rows =
    if any_allowed updates
    then update_where id (λ r. record (set_columns updates r) { updated_at = now }) rows
    else rows

-- get_plan
unfoldable pub get_plan : String → List PlanRow → Option PlanRow
get_plan id [] = none
get_plan id (r ∷ rs) = if str_eq r.plan_id id then some r else get_plan id rs

-- get_plan_status
unfoldable pub get_plan_status : String → List PlanRow → Option String
unfolding get_plan
get_plan_status id rows = elim (get_plan id rows) [ none ↦ none | some r ↦ some r.status ]

-- ORDER BY created_at DESC: rows created at the same time stay in the table's order
unfoldable pub insert_recent : PlanRow → List PlanRow → List PlanRow
insert_recent r [] = r ∷ []
insert_recent r (s ∷ rs) =
    if leb s.created_at r.created_at then r ∷ s ∷ rs else s ∷ insert_recent r rs

unfoldable pub by_created : List PlanRow → List PlanRow
unfolding insert_recent
by_created [] = []
by_created (r ∷ rs) = insert_recent r (by_created rs)

-- get_all_plans
unfoldable pub get_all_plans : ℕ → List PlanRow → List PlanRow
unfolding by_created
get_all_plans limit rows = take limit (by_created rows)

-- plan.get("plan_depends_on", []), as get_plan and get_all_plans decode it
unfoldable pub depends_on : PlanRow → List String
depends_on r = elim r.plan_depends_on [ none ↦ [] | some deps ↦ deps ]

-- dep_status == "completed"
unfoldable pub is_completed : List PlanRow → String → Bool
unfolding get_plan_status
is_completed rows dep = elim (get_plan_status dep rows) [
  | none ↦ false
  | some s ↦ str_eq s "completed"
]

-- the loop of are_plan_dependencies_completed: the dependencies that are not completed
unfoldable pub incomplete : List PlanRow → List String → List String
unfolding is_completed
incomplete rows [] = []
incomplete rows (dep ∷ deps) =
    let rest = incomplete rows deps in if is_completed rows dep then rest else dep ∷ rest

unfoldable pub no_names : List String → Bool
no_names [] = true
no_names (x ∷ xs) = false

-- are_plan_dependencies_completed
unfoldable pub are_plan_dependencies_completed : List PlanRow → String → Bool × List String
unfolding get_plan depends_on incomplete no_names
are_plan_dependencies_completed rows id = elim (get_plan id rows) [
  | none ↦ (false, id ∷ [])
  | some r ↦ let missing = incomplete rows (depends_on r) in (no_names missing, missing)
]
