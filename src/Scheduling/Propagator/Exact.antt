-- ===== src/Scheduling/Propagator/Exact.antt =====
-- Which plans on_plan_completed of orchestrator/bin/status_propagator.py triggers, and which it
-- reports as blocked.
use ai_devops.Common.{
  ℕ, zero, suc, ◌≤◌, take, length, String, str_eq, ◌&&◌, Bool, false, Option, none, some, List, [],
  ◌∷◌, ◌++◌, ◌≡◌, refl, sym, ap, ◌∙◌, subst, if◌then◌else◌, not, arith, append-nil, append_assoc,
  Bool-cases, All, inl, inr,
}
use ai_devops.Common.Names.{mem}
use ai_devops.Scheduling.Store.{
  PlanRow, insert_recent, by_created, get_all_plans, depends_on, update_where, is_completed,
  are_plan_dependencies_completed,
}
use ai_devops.Scheduling.Store.Statuses.{
  marked, update_plan-status, is_completed-marked, dependencies_completed-marked,
}
use ai_devops.Scheduling.Propagator.Frame.{mark_completed-rows}
use ai_devops.Scheduling.Propagator.{
  PropagationResult, Propagator, Call, dependents, find_dependent_plans, trigger_plan_dispatch,
  process_dependent, process_dependents, mark_completed, on_plan_completed,
}

-- The names that pass a test, in order.
abbrev pub select : (String → Bool) → List String → List String
select test [] = []
select test (x ∷ xs) = if test x then x ∷ select test xs else select test xs

select-cong :
    (f g : String → Bool)
    → ((x : String) → f x ≡ g x)
    → (xs : List String) → select f xs ≡ select g xs
select-cong f g same [] = refl
select-cong f g same (x ∷ xs) = ground (arith, same x, select-cong f g same xs)

-- No call of the database raises.
abbrev pub silent : Call → Option String
silent c = none

-- The dependencies are all completed, in these rows.
abbrev pub satisfied : List PlanRow → String → Bool
satisfied rows d = (are_plan_dependencies_completed rows d).0

abbrev pub unsatisfied : List PlanRow → String → Bool
unsatisfied rows d = not (satisfied rows d)

-- No plan of the list is completed.
abbrev pub Open : List PlanRow → List String → Type 0
Open rows = All (λ d. is_completed rows d ≡ false)

Open-cong :
    (rows rows' : List PlanRow)
    → ((k : String) → is_completed rows' k ≡ is_completed rows k)
    → (ds : List String) → Open rows ds
    → Open rows' ds
Open-cong rows rows' same [] h = h
Open-cong rows rows' same (d ∷ ds) h = (same d ∙ h.0, Open-cong rows rows' same ds h.1)

trigger-rows :
    (id : String) (now : ℕ) (p : Propagator)
    → (trigger_plan_dispatch silent id now p).rows ≡ marked id "ready" now p.rows
unfolding trigger_plan_dispatch
trigger-rows id now p = update_plan-status id "ready" now p.rows

-- The rows after a turn decide as the rows before it.
abbrev Agree : List PlanRow → List PlanRow → Type 0
Agree rows rows' =
    ((k : String) → is_completed rows' k ≡ is_completed rows k)
    × ((k : String) → satisfied rows' k ≡ satisfied rows k)

marked-Agree :
    (id : String) (now : ℕ) (rows : List PlanRow)
    → is_completed rows id ≡ false
    → Agree rows (marked id "ready" now rows)
marked-Agree id now rows h = (
  is_completed-marked id "ready" now rows refl h,
  λ k. ap (λ a. a.0) (dependencies_completed-marked id "ready" now rows refl h k),
)

turn-Agree :
    (dep : String) (now : ℕ) (p : Propagator) (r : PropagationResult)
    → is_completed p.rows dep ≡ false
    → Agree p.rows (process_dependent silent dep now (p, r)).0.rows
unfolding process_dependent
turn-Agree dep now p r h = elim (Bool-cases (satisfied p.rows dep)) [
  | inl b ↦ rw (b, trigger-rows dep now p) (marked-Agree dep now p.rows h)
  | inr b ↦ rw b (λ k. refl, λ k. refl)
]

turn-triggered :
    (dep : String) (now : ℕ) (p : Propagator) (r : PropagationResult)
    → (process_dependent silent dep now (p, r)).1.triggered_plans
      ≡ (r.triggered_plans ++ select (satisfied p.rows) (dep ∷ []))
unfolding process_dependent
turn-triggered dep now p r = elim (Bool-cases (satisfied p.rows dep)) [
  | inl b ↦ rw b refl
  | inr b ↦ rw b (sym (append-nil r.triggered_plans))
]

turn-blocked :
    (dep : String) (now : ℕ) (p : Propagator) (r : PropagationResult)
    → (process_dependent silent dep now (p, r)).1.blocked_plans
      ≡ (r.blocked_plans ++ select (unsatisfied p.rows) (dep ∷ []))
unfolding process_dependent
turn-blocked dep now p r = elim (Bool-cases (satisfied p.rows dep)) [
  | inl b ↦ rw b (sym (append-nil r.blocked_plans))
  | inr b ↦ rw b refl
]

select-cons :
    (f : String → Bool) (x : String) (xs : List String)
    → (select f (x ∷ []) ++ select f xs) ≡ select f (x ∷ xs)
select-cons f x xs = elim (Bool-cases (f x)) [ inl b ↦ rw b refl | inr b ↦ rw b refl ]

loop-triggered :
    (deps : List String) (now : ℕ) (p : Propagator) (r : PropagationResult)
    → Open p.rows deps
    → (process_dependents silent deps now (p, r)).1.triggered_plans
      ≡ (r.triggered_plans ++ select (satisfied p.rows) deps)
unfolding process_dependents
loop-triggered [] now p r h = sym (append-nil r.triggered_plans)
loop-triggered (d ∷ ds) now p r h =
    let p' = (process_dependent silent d now (p, r)).0 in
    let r' = (process_dependent silent d now (p, r)).1 in
    let agree = turn-Agree d now p r h.0 in
    loop-triggered ds now p' r' (Open-cong p.rows p'.rows agree.0 ds h.1)
    ∙ ap (λ xs. xs ++ select (satisfied p'.rows) ds) (turn-triggered d now p r)
    ∙ append_assoc r.triggered_plans (select (satisfied p.rows) (d ∷ []))
        (select (satisfied p'.rows) ds)
    ∙ ap (λ xs. r.triggered_plans ++ (select (satisfied p.rows) (d ∷ []) ++ xs))
        (select-cong (satisfied p'.rows) (satisfied p.rows) agree.1 ds)
    ∙ ap (λ xs. r.triggered_plans ++ xs) (select-cons (satisfied p.rows) d ds)

loop-blocked :
    (deps : List String) (now : ℕ) (p : Propagator) (r : PropagationResult)
    → Open p.rows deps
    → (process_dependents silent deps now (p, r)).1.blocked_plans
      ≡ (r.blocked_plans ++ select (unsatisfied p.rows) deps)
unfolding process_dependents
loop-blocked [] now p r h = sym (append-nil r.blocked_plans)
loop-blocked (d ∷ ds) now p r h =
    let p' = (process_dependent silent d now (p, r)).0 in
    let r' = (process_dependent silent d now (p, r)).1 in
    let agree = turn-Agree d now p r h.0 in
    loop-blocked ds now p' r' (Open-cong p.rows p'.rows agree.0 ds h.1)
    ∙ ap (λ xs. xs ++ select (unsatisfied p'.rows) ds) (turn-blocked d now p r)
    ∙ append_assoc r.blocked_plans (select (unsatisfied p.rows) (d ∷ []))
        (select (unsatisfied p'.rows) ds)
    ∙ ap (λ xs. r.blocked_plans ++ (select (unsatisfied p.rows) (d ∷ []) ++ xs))
        (select-cong (unsatisfied p'.rows) (unsatisfied p.rows) (λ k. ap not (agree.1 k)) ds)
    ∙ ap (λ xs. r.blocked_plans ++ xs) (select-cons (unsatisfied p.rows) d ds)

-- The plan is another one and lists this one among its dependencies.
abbrev pub waits_for : String → PlanRow → Bool
waits_for id r =
    not (str_eq r.plan_id id) && mem id (elim r.plan_depends_on [ none ↦ [] | some deps ↦ deps ])

-- The plans of all the rows that wait for this one.
abbrev pub waiting_plans : String → List PlanRow → List String
waiting_plans id [] = []
waiting_plans id (r ∷ rs) =
    if waits_for id r then r.plan_id ∷ waiting_plans id rs else waiting_plans id rs

dependents-waiting :
    (id : String) (rows : List PlanRow) → dependents id rows ≡ waiting_plans id rows
unfolding dependents depends_on
dependents-waiting id [] = refl
dependents-waiting id (r ∷ rs) = ground (arith, dependents-waiting id rs)

length-insert_recent :
    (r : PlanRow) (rows : List PlanRow) → length (insert_recent r rows) ≡ suc (length rows)
unfolding insert_recent
length-insert_recent r [] = refl
length-insert_recent r (s ∷ rows) = ground (arith, length-insert_recent r rows)

length-by_created : (rows : List PlanRow) → length (by_created rows) ≡ length rows
unfolding by_created
length-by_created [] = refl
length-by_created (r ∷ rows) =
    length-insert_recent r (by_created rows) ∙ ap suc (length-by_created rows)

length-marked :
    (id s : String) (now : ℕ) (rows : List PlanRow) → length (marked id s now rows) ≡ length rows
unfolding update_where
length-marked id s now [] = refl
length-marked id s now (r ∷ rows) = ap suc (length-marked id s now rows)

take-all : (n : ℕ) (rows : List PlanRow) → length rows ≤ n → take n rows ≡ rows
take-all zero [] h = refl
take-all zero (r ∷ rows) h = absurd (omega (arith, h))
take-all (suc n) [] h = refl
take-all (suc n) (r ∷ rows) h = ap (λ rs. r ∷ rs) (take-all n rows (omega (arith, h)))

-- With at most 1000 rows none is left out.
found-waiting :
    (id : String) (rows : List PlanRow)
    → length rows ≤ 1000
    → find_dependent_plans silent id rows ≡ waiting_plans id (by_created rows)
unfolding find_dependent_plans get_all_plans
found-waiting id rows h =
    ap (dependents id) (take-all 1000 (by_created rows) (omega (arith, h, length-by_created rows)))
    ∙ dependents-waiting id (by_created rows)

split-found :
    (id : String) (now : ℕ) (p : Propagator)
    → Open
        (marked id "completed" now p.rows)
        (find_dependent_plans silent id (marked id "completed" now p.rows))
    → ((on_plan_completed silent id now p).1.triggered_plans
        ≡ select
            (satisfied (marked id "completed" now p.rows))
            (find_dependent_plans silent id (marked id "completed" now p.rows)))
      × ((on_plan_completed silent id now p).1.blocked_plans
          ≡ select
              (unsatisfied (marked id "completed" now p.rows))
              (find_dependent_plans silent id (marked id "completed" now p.rows)))
unfolding on_plan_completed
split-found id now p h =
    let p1 = mark_completed silent id now p in
    let same : p1.rows ≡ marked id "completed" now p.rows = mark_completed-rows silent id now p in
    let fresh : PropagationResult = record {
      triggered_plans = [];
      blocked_plans = [];
      errors = [];
    } in
    let ok_rows : Open p1.rows (find_dependent_plans silent id p1.rows) =
      subst (λ rows. Open rows (find_dependent_plans silent id rows)) (sym same) h in
    (
      loop-triggered (find_dependent_plans silent id p1.rows) now p1 fresh ok_rows
          ∙ ap (λ rows. select (satisfied rows) (find_dependent_plans silent id rows)) same,
      loop-blocked (find_dependent_plans silent id p1.rows) now p1 fresh ok_rows
          ∙ ap (λ rows. select (unsatisfied rows) (find_dependent_plans silent id rows)) same,
    )

-- With a table of at most 1000 rows, when no call of the database raises and no plan that waits for
-- the completed one is completed itself: the plans triggered are the waiting ones whose
-- dependencies are all completed once this one is, and the plans blocked are the other waiting
-- ones, both the most recently created first.
pub on_plan_completed-splits :
    (id : String) (now : ℕ) (p : Propagator)
    → length p.rows ≤ 1000
    → Open
        (marked id "completed" now p.rows)
        (waiting_plans id (by_created (marked id "completed" now p.rows)))
    → ((on_plan_completed silent id now p).1.triggered_plans
        ≡ select
            (satisfied (marked id "completed" now p.rows))
            (waiting_plans id (by_created (marked id "completed" now p.rows))))
      × ((on_plan_completed silent id now p).1.blocked_plans
          ≡ select
              (unsatisfied (marked id "completed" now p.rows))
              (waiting_plans id (by_created (marked id "completed" now p.rows))))
on_plan_completed-splits id now p few h =
    let rows = marked id "completed" now p.rows in
    let found =
      found-waiting id rows (omega (arith, few, length-marked id "completed" now p.rows)) in
    let (triggered, blocked) = split-found id now p (subst (Open rows) (sym found) h) in
    (triggered ∙ ap (select (satisfied rows)) found, blocked ∙ ap (select (unsatisfied rows)) found)
