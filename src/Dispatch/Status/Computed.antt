-- ===== src/Dispatch/Status/Computed.antt =====
-- The status of a plan against those of its tasks.
use ai_devops.Common.{
  ◌≤◌, String, Bool, true, false, List, [], ◌∷◌, ◌≡◌, refl, ◌↔◌, ◌≢◌, arith, if◌then◌else◌, length,
  ◌==◌, ==_iff, All, Bool-cases, inl, inr,
}
use ai_devops.PlanSchema.Types.{Plan}
use ai_devops.Dispatch.Paths.{Env}
use ai_devops.Dispatch.Registry.{
  TaskItem, completed_statuses, has_status, count_status, plan_tasks, plan_status_from_tasks,
}

count_status-le :
    (names : List String) (items : List TaskItem) → count_status names items ≤ length items
unfolding count_status
count_status-le names [] = omega arith
count_status-le names (i ∷ is) = let rest = count_status-le names is in ground (arith, rest)

count_full :
    (names : List String) (items : List TaskItem)
    → count_status names items ≡ length items
    → All (λ i. has_status names i ≡ true) items
unfolding count_status
count_full names [] e = tt
count_full names (i ∷ is) e =
    let bound = count_status-le names is in
    (ground (arith, e, bound), count_full names is (ground (arith, e, bound)))

full_count :
    (names : List String) (items : List TaskItem)
    → All (λ i. has_status names i ≡ true) items
    → count_status names items ≡ length items
unfolding count_status
full_count names [] a = refl
full_count names (i ∷ is) a = let rest = full_count names is a.1 in ground (arith, rest, a.0)

never_completed :
    (a b : Bool)
    → ◌≢◌ {A = String} (if a then "running" else if b then "failed" else "pending") "completed"
never_completed true b h = cc
never_completed false true h = cc
never_completed false false h = cc

-- The status that is computed for a plan is "completed" exactly if the plan has tasks and all of
-- them have a completed status.
pub status-completed :
    (env : Env) (plan : Plan) (items : List TaskItem)
    → (plan_status_from_tasks env plan items ≡ "completed") ↔ (
        (length (plan_tasks env plan.plan_id items) ≢ 0)
        × All (λ i. has_status completed_statuses i ≡ true) (plan_tasks env plan.plan_id items))
unfolding plan_status_from_tasks
status-completed env plan items =
    let tasks = plan_tasks env plan.plan_id items in
    let full = count_status completed_statuses tasks == length tasks in
    elim (Bool-cases (length tasks == 0)) [
      | inl e ↦ (
        λ h. absurd (cc (rw (plan_status_from_tasks, e) at h)),
        λ h. absurd (h.0 ((==_iff (length tasks) 0).0 e)),
      )
      | inr e ↦ elim (Bool-cases full) [
        | inl f ↦ (
          λ h. (
            λ z. ground (arith, e, z),
            count_full completed_statuses tasks
                ((==_iff (count_status completed_statuses tasks) (length tasks)).0 f),
          ),
          λ h. rw (plan_status_from_tasks, e, f) refl,
        )
        | inr f ↦ (
          λ h. absurd (never_completed _ _ (rw (plan_status_from_tasks, e, f) at h)),
          λ h. ground (arith, f, full_count completed_statuses tasks h.1),
        )
      ]
    ]
