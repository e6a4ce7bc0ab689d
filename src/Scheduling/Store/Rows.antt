-- ===== src/Scheduling/Store/Rows.antt =====
-- What is read of the plans table after insert_plan of orchestrator/bin/db.py.
use ai_devops.Common.{
  ℕ, String, Option, none, some, List, [], ◌∷◌, ◌++◌, ◌≡◌, refl, ap, ◌∙◌, str_eq, arith, eq_iff,
  if◌then◌else◌, Bool-cases, Option-cases, inl, inr,
}
use ai_devops.Common.Int.{ℤ}
use ai_devops.PlanSchema.Json.{end}
use ai_devops.Scheduling.Store.{
  PlanRow, NewPlan, or_default, new_row, delete_where, insert_plan, get_plan, Update, update_plan,
}
use ai_devops.Scheduling.Store.Statuses.{restatus, update_plan-status, get_plan-marked}

get_plan-snoc :
    (k : String) (r : PlanRow) (rows : List PlanRow)
    → get_plan k (rows ++ r ∷ []) ≡ elim (get_plan k rows) [
      | some s ↦ some s
      | none ↦ if str_eq r.plan_id k then some r else none
    ]
unfolding get_plan
get_plan-snoc k r [] = refl
get_plan-snoc k r (s ∷ rows) = elim (Bool-cases (str_eq s.plan_id k)) [
  | inl e ↦ rw e refl
  | inr e ↦ rw e (get_plan-snoc k r rows)
]

get_plan-delete_where :
    (k id : String) (rows : List PlanRow)
    → get_plan k (delete_where id rows) ≡ (if str_eq id k then none else get_plan k rows)
unfolding get_plan delete_where
get_plan-delete_where k id [] = ground arith
get_plan-delete_where k id (s ∷ rows) =
    ground
      (arith, get_plan-delete_where k id rows, eq_iff s.plan_id id, eq_iff s.plan_id k, eq_iff id k)

get_plan-new_row :
    (n : NewPlan) (now : ℕ) (rows : List PlanRow) (k : String)
    → get_plan k (insert_plan n now rows)
      ≡ (if str_eq n.plan_id k then some (new_row n now) else get_plan k rows)
unfolding insert_plan new_row
get_plan-new_row n now rows k = elim (Bool-cases (str_eq n.plan_id k)) [
  | inl e ↦ ground (
    arith,
    e,
    get_plan-snoc k (new_row n now) (delete_where n.plan_id rows),
    get_plan-delete_where k n.plan_id rows,
  )
  | inr e ↦ elim (Option-cases (get_plan k rows)) [
    | inl h ↦ ground (
      arith,
      e,
      h,
      get_plan-snoc k (new_row n now) (delete_where n.plan_id rows),
      get_plan-delete_where k n.plan_id rows,
    )
    | inr (s, h) ↦ ground (
      arith,
      e,
      h,
      get_plan-snoc k (new_row n now) (delete_where n.plan_id rows),
      get_plan-delete_where k n.plan_id rows,
    )
  ]
]

default-elim {ℓ} :
    {A : Type ℓ} (d : A) (o : Option A) → or_default d o ≡ elim o [ none ↦ d | some a ↦ a ]
default-elim d none = refl
default-elim d (some a) = refl

-- After insert_plan, the plan inserted is read with the values given, where a missing objective is
-- the empty text, missing constraints and context are empty objects, missing dependencies an empty
-- list, a missing priority 0, a missing status "pending" and a missing time of creation the time of
-- the call, which is also the time of the update; every other plan is read as before, whether or
-- not the table had a row of that id.
pub get_plan-insert_plan :
    (n : NewPlan) (now : ℕ) (rows : List PlanRow) (k : String)
    → get_plan k (insert_plan n now rows) ≡ (
        if str_eq n.plan_id k
        then some (record {
          plan_id = n.plan_id;
          repo = n.repo;
          title = n.title;
          requested_by = n.requested_by;
          objective = elim n.objective [ none ↦ "" | some text ↦ text ];
          constraints = elim n.constraints [ none ↦ end | some fields ↦ fields ];
          context = elim n.context [ none ↦ end | some fields ↦ fields ];
          version = n.version;
          plan_depends_on = some (elim n.plan_depends_on [ none ↦ [] | some deps ↦ deps ]);
          global_priority = elim n.global_priority [ none ↦ ℤ.pos 0 | some i ↦ i ];
          status = elim n.status [ none ↦ "pending" | some text ↦ text ];
          requested_at = n.requested_at;
          created_at = elim n.created_at [ none ↦ now | some time ↦ time ];
          updated_at = now;
        })
        else get_plan k rows)
unfolding new_row
get_plan-insert_plan n now rows k =
    rw
      (
        get_plan-new_row n now rows k,
        default-elim "" n.objective,
        default-elim end n.constraints,
        default-elim end n.context,
        default-elim [] n.plan_depends_on,
        default-elim (ℤ.pos 0) n.global_priority,
        default-elim "pending" n.status,
        default-elim now n.created_at,
      )
      refl

-- After an update of the status of one plan, that plan, if it has a row, is read with the new
-- status and the time of the update and is otherwise as before, and every other plan is read as
-- before.
pub get_plan-update_plan :
    (id s : String) (now : ℕ) (rows : List PlanRow) (k : String)
    → get_plan k (update_plan id (Update.status s ∷ []) now rows) ≡ elim (get_plan k rows) [
      | none ↦ none
      | some r ↦ some (if str_eq k id then restatus s now r else r)
    ]
get_plan-update_plan id s now rows k =
    ap (get_plan k) (update_plan-status id s now rows) ∙ get_plan-marked id s now k rows
