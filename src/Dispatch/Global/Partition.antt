-- ===== src/Dispatch/Global/Partition.antt =====
-- Where dispatch_with_global_scheduler of orchestrator/bin/dispatch.py puts the plans.
use ai_devops.Common.{
  ℕ, ◌+◌, String, List, [], ◌∷◌, ◌++◌, map, length, ◌≡◌, refl, ◌∙◌, arith, str_eq, if◌then◌else◌,
  Bool-cases, inl, inr,
}
use ai_devops.Common.Names.{count}
use ai_devops.Common.Result.{Result, ok, err}
use ai_devops.PlanSchema.Types.{Plan}
use ai_devops.Scheduling.Scheduler.{SchedulerConfig, check_resource_availability}
use ai_devops.Dispatch.Paths.{Env}
use ai_devops.Dispatch.Scope.{DispatchError}
use ai_devops.Dispatch.Registry.{can_dispatch}
use ai_devops.Dispatch.Global.{
  Base, Block, Results, Turn, plan_first, insert_by_priority, sort_by_priority, dispatched_result,
  dispatch_one, dispatch_each, dispatch_with_global_scheduler,
}

abbrev names {ℓ} : {A : Type ℓ} → List (String × A) → List String
names xs = map (λ x. x.0) xs

abbrev pub plan_ids : List Plan → List String
plan_ids ps = map (λ p. p.plan_id) ps

-- How often the results list a plan.
abbrev pub listed : String → Results → ℕ
listed k r = count k (names r.dispatched) + count k (names r.blocked) + count k (names r.deferred)

names-snoc {ℓ} :
    {A : Type ℓ} (k id : String) (a : A) (xs : List (String × A))
    → count k (names (xs ++ (id, a) ∷ [])) ≡ count k (names xs) + (if str_eq k id then 1 else 0)
names-snoc k id a [] = omega arith
names-snoc k id a (x ∷ xs) = omega (arith, names-snoc k id a xs)

dispatched_result-listed :
    (k id : String) (done : Result DispatchError (List String)) (r : Results)
    → listed k (dispatched_result id done r) ≡ listed k r + (if str_eq k id then 1 else 0)
unfolding dispatched_result
dispatched_result-listed k id (ok paths) r = omega (arith, names-snoc k id paths r.dispatched)
dispatched_result-listed k id (err e) r = omega (arith, names-snoc k id (Block.failed e) r.blocked)

dispatched_result-total :
    (id : String) (done : Result DispatchError (List String)) (r : Results)
    → (dispatched_result id done r).total_plans ≡ r.total_plans
unfolding dispatched_result
dispatched_result-total id (ok paths) r = refl
dispatched_result-total id (err e) r = refl

insert-count :
    (k : String) (p : Plan) (ps : List Plan)
    → count k (plan_ids (insert_by_priority p ps))
      ≡ (if str_eq k p.plan_id then 1 else 0) + count k (plan_ids ps)
unfolding insert_by_priority
insert-count k p [] = refl
insert-count k p (q ∷ qs) =
    let rest = insert-count k p qs in
    elim (Bool-cases (plan_first p q)) [
      | inl e ↦ rw (insert_by_priority, e) refl
      | inr e ↦ rw (insert_by_priority, e) (omega (arith, rest))
    ]

sort-count :
    (k : String) (ps : List Plan) → count k (plan_ids (sort_by_priority ps)) ≡ count k (plan_ids ps)
unfolding sort_by_priority
sort-count k [] = refl
sort-count k (p ∷ ps) =
    let rest = sort-count k ps in
    let one = insert-count k p (sort_by_priority ps) in omega (arith, rest, one)

module _ (env_of : Plan → Env) (cfg : SchedulerConfig) (turn_of : Plan → Turn) where
  record Placed (p : Plan) (r r' : Results) : Type 0 where
    listed_more : (k : String) → listed k r' ≡ listed k r + (if str_eq k p.plan_id then 1 else 0)
    total : r'.total_plans ≡ r.total_plans

  one-Placed :
      (p : Plan) (b : Base) (r : Results) → Placed p r (dispatch_one env_of cfg turn_of p (b, r)).1
  unfolding dispatch_one
  one-Placed p b r =
      let turn = turn_of p in
      let allowed = (can_dispatch turn.outside.down b.rows p).0 in
      let available = (check_resource_availability cfg turn.tasks).0 in
      elim (Bool-cases allowed) [
        | inr e ↦
            rw (dispatch_one, e)
              (record {
                listed_more = λ k. omega (arith, names-snoc k p.plan_id (Block.waits _) r.blocked);
                total = refl;
              })
        | inl e ↦ elim (Bool-cases available) [
          | inr f ↦
              rw (dispatch_one, e, f)
                (record {
                  listed_more = λ k. omega (arith, names-snoc k p.plan_id _ r.deferred);
                  total = refl;
                })
          | inl f ↦
              rw (dispatch_one, e, f)
                (record {
                  listed_more = λ k. dispatched_result-listed k p.plan_id _ r;
                  total = dispatched_result-total p.plan_id _ r;
                })
        ]
      ]

  each_listed :
      (k : String) (ps : List Plan) (s : Base × Results)
      → listed k (dispatch_each env_of cfg turn_of ps s).1 ≡ listed k s.1 + count k (plan_ids ps)
  unfolding dispatch_each
  each_listed k [] s = omega arith
  each_listed k (p ∷ ps) (b, r) =
      let one = (one-Placed p b r).listed_more k in
      let rest = each_listed k ps (dispatch_one env_of cfg turn_of p (b, r)) in
      rest ∙ omega (arith, one)

  each_total :
      (ps : List Plan) (s : Base × Results)
      → (dispatch_each env_of cfg turn_of ps s).1.total_plans ≡ s.1.total_plans
  unfolding dispatch_each
  each_total [] s = refl
  each_total (p ∷ ps) (b, r) =
      each_total ps (dispatch_one env_of cfg turn_of p (b, r)) ∙ (one-Placed p b r).total

  -- Every plan id is listed, as dispatched, blocked or deferred, as often in all as the scheduler is
  -- given a plan with it; the total is the number of plans.
  pub plans_listed :
      (plans : List Plan) (b : Base)
      → ((k : String)
          → listed k (dispatch_with_global_scheduler env_of cfg turn_of plans b).1
            ≡ count k (plan_ids plans))
        × ((dispatch_with_global_scheduler env_of cfg turn_of plans b).1.total_plans ≡ length plans)
  unfolding dispatch_with_global_scheduler
  plans_listed plans b =
      let fresh : Results = record {
        dispatched = [];
        blocked = [];
        deferred = [];
        total_plans = length plans;
      } in
      (
        λ k. omega (arith, each_listed k (sort_by_priority plans) (b, fresh), sort-count k plans),
        each_total (sort_by_priority plans) (b, fresh),
      )
