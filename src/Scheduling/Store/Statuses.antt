-- ===== src/Scheduling/Store/Statuses.antt =====
-- What an update of the status does to the rows of the plans table that are read later.
use ai_devops.Common.{
  ℕ, String, false, none, some, List, [], ◌∷◌, ◌≡◌, refl, str_eq, arith, eq_iff, if◌then◌else◌,
  Bool-cases, Option-cases, inl, inr,
}
use ai_devops.Scheduling.Store.{
  PlanRow, Update, any_allowed, allowed, set_columns, set_column, update_where, update_plan,
  get_plan, get_plan_status, depends_on, is_completed, incomplete, are_plan_dependencies_completed,
}

-- The row with a new status.
abbrev pub restatus : String → ℕ → PlanRow → PlanRow
restatus s now r = record r { status = s; updated_at = now }

-- The rows with a new status for one plan.
abbrev pub marked : String → String → ℕ → List PlanRow → List PlanRow
marked id s now rows = update_where id (restatus s now) rows

pub update_plan-status :
    (id s : String) (now : ℕ) (rows : List PlanRow)
    → update_plan id (Update.status s ∷ []) now rows ≡ marked id s now rows
unfolding update_plan any_allowed allowed set_columns set_column
update_plan-status id s now rows = refl

pub get_plan-marked :
    (id s : String) (now : ℕ) (k : String) (rows : List PlanRow)
    → get_plan k (marked id s now rows) ≡ elim (get_plan k rows) [
      | none ↦ none
      | some r ↦ some (if str_eq k id then restatus s now r else r)
    ]
unfolding get_plan update_where
get_plan-marked id s now k [] = refl
get_plan-marked id s now k (r ∷ rs) = elim (Bool-cases (str_eq r.plan_id id)) [
  | inl a ↦ elim (Bool-cases (str_eq r.plan_id k)) [
    | inl b ↦ ground (arith, a, b, eq_iff r.plan_id id, eq_iff r.plan_id k, eq_iff k id)
    | inr b ↦ ground (arith, a, b, get_plan-marked id s now k rs)
  ]
  | inr a ↦ elim (Bool-cases (str_eq r.plan_id k)) [
    | inl b ↦ ground (arith, a, b, eq_iff r.plan_id id, eq_iff r.plan_id k, eq_iff k id)
    | inr b ↦ ground (arith, a, b, get_plan-marked id s now k rs)
  ]
]

pub get_plan_status-other :
    (id s : String) (now : ℕ) (k : String) (rows : List PlanRow)
    → str_eq k id ≡ false
    → get_plan_status k (marked id s now rows) ≡ get_plan_status k rows
unfolding get_plan_status
get_plan_status-other id s now k rows n = elim (Option-cases (get_plan k rows)) [
  | inl e ↦ ground (arith, e, get_plan-marked id s now k rows)
  | inr (r, e) ↦ ground (arith, e, n, get_plan-marked id s now k rows)
]

-- A status other than "completed", given to a plan that is not completed, completes nothing and
-- undoes nothing.
pub is_completed-marked :
    (id s : String) (now : ℕ) (rows : List PlanRow)
    → str_eq s "completed" ≡ false
    → is_completed rows id ≡ false
    → (k : String) → is_completed (marked id s now rows) k ≡ is_completed rows k
unfolding is_completed get_plan_status
is_completed-marked id s now rows n h k = elim (Option-cases (get_plan k rows)) [
  | inl e ↦ ground (arith, e, get_plan-marked id s now k rows)
  | inr (r, e) ↦ elim (Bool-cases (str_eq k id)) [
    | inl b ↦ ground (arith, e, b, n, h, get_plan-marked id s now k rows, eq_iff k id)
    | inr b ↦ ground (arith, e, b, get_plan-marked id s now k rows)
  ]
]

pub incomplete-cong :
    (rows rows' : List PlanRow)
    → ((k : String) → is_completed rows' k ≡ is_completed rows k)
    → (deps : List String) → incomplete rows' deps ≡ incomplete rows deps
unfolding incomplete
incomplete-cong rows rows' same [] = refl
incomplete-cong rows rows' same (d ∷ deps) =
    ground (arith, same d, incomplete-cong rows rows' same deps)

pub dependencies_completed-marked :
    (id s : String) (now : ℕ) (rows : List PlanRow)
    → str_eq s "completed" ≡ false
    → is_completed rows id ≡ false
    → (k : String)
    → are_plan_dependencies_completed (marked id s now rows) k
      ≡ are_plan_dependencies_completed rows k
unfolding are_plan_dependencies_completed depends_on
dependencies_completed-marked id s now rows n h k =
    let same =
      incomplete-cong rows (marked id s now rows) (is_completed-marked id s now rows n h) in
    elim (Option-cases (get_plan k rows)) [
      | inl e ↦ ground (arith, e, get_plan-marked id s now k rows)
      | inr (r, e) ↦ elim (Bool-cases (str_eq k id)) [
        | inl b ↦ ground (arith, e, b, get_plan-marked id s now k rows, same (depends_on r))
        | inr b ↦ ground (arith, e, b, get_plan-marked id s now k rows, same (depends_on r))
      ]
    ]
