-- ===== src/PlanSchema/Graph/Order.antt =====
-- `topologically_sorted_subtasks`: on a plan with distinct ids and known dependencies it orders
-- the subtasks, or reports a cycle, and it reports one exactly if no ordering exists.
use ai_devops.Common.{
  ℕ, zero, suc, String, List, [], ◌∷◌, ◌≡◌, refl, ◌∙◌, ap, sym, subst, true, arith, some, length,
  ◌==◌, ==_iff, if◌then◌else◌, Bool-cases, inl, inr, ◌⊎◌,
}
use ai_devops.Common.Names.{mem, count, distinct}
use ai_devops.Common.Int.{ℤ, pos}
use ai_devops.Common.Dict.{Dict, empty}
use ai_devops.Common.Result.{Result, ok, err}
use ai_devops.PlanSchema.Graph.{
  ids, fill, subtasks_by_id, place, sort_by, insert_by, order_key, enumerate,
  topologically_sorted_subtasks,
}
use ai_devops.PlanSchema.Graph.Build.{deps_of, DepsKnown, find-mem, fill-find, deps_of-find}
use ai_devops.PlanSchema.Graph.Loop.{kahn}
use ai_devops.PlanSchema.Graph.Run.{
  IsTopologicalOrder, attached, ready, run, run_complete, run_ordered,
}
use ai_devops.PlanSchema.Types.{Subtask, Error, cycle}

count-insert_by :
    (key : String → ℕ) (c x : String) (xs : List String)
    → count c (insert_by key x xs) ≡ count c (x ∷ xs)
unfolding insert_by
count-insert_by key c x [] = refl
count-insert_by key c x (y ∷ ys) = ground (arith, count-insert_by key c x ys)

count-sort_by :
    (key : String → ℕ) (c : String) (xs : List String) → count c (sort_by key xs) ≡ count c xs
unfolding sort_by
count-sort_by key c [] = refl
count-sort_by key c (x ∷ xs) =
    omega (arith, count-insert_by key c x (sort_by key xs), count-sort_by key c xs)

place-kahn :
    (fuel : ℕ) (adjacency : Dict (List String)) (key : String → ℕ) (by_id : Dict Subtask)
    (indegree : Dict ℤ) (ready : List String) (ordered : List Subtask)
    → place fuel adjacency key by_id indegree ready ordered
      ≡ kahn (sort_by key) fuel adjacency by_id indegree ready ordered
unfolding place kahn
place-kahn zero adjacency key by_id indegree ready ordered = refl
place-kahn (suc fuel) adjacency key by_id indegree [] ordered = refl
place-kahn (suc fuel) adjacency key by_id indegree (current ∷ ready) ordered =
    simp (place-kahn fuel adjacency key by_id)

-- The outcome of the sort on a closed plan: an ordering, or a cycle where there is none.
data Outcome (subtasks : List Subtask) : Result Error (List Subtask) → Type 0 where
  sorted : (order : List Subtask) → IsTopologicalOrder subtasks order → Outcome subtasks (ok order)
  stuck :
      ((order : List Subtask) → ¬ IsTopologicalOrder subtasks order) → Outcome subtasks (err cycle)

Outcome-of :
    (subtasks ordered : List Subtask)
    → (length ordered ≡ length subtasks → IsTopologicalOrder subtasks ordered)
    → ((order : List Subtask)
        → IsTopologicalOrder subtasks order
        → length ordered ≡ length subtasks)
    → Outcome subtasks (if length ordered == length subtasks then ok ordered else err cycle)
Outcome-of subtasks ordered fit full = elim (Bool-cases (length ordered == length subtasks)) [
  | inl e ↦ rw e (sorted ordered (fit ((==_iff (length ordered) (length subtasks)).0 e)))
  | inr e ↦ rw e (stuck (λ order h. ground (arith, full order h)))
]

sort-Outcome :
    (subtasks : List Subtask)
    → distinct (ids subtasks) ≡ true
    → DepsKnown (ids subtasks) subtasks
    → Outcome subtasks (topologically_sorted_subtasks subtasks)
unfolding topologically_sorted_subtasks
sort-Outcome subtasks unique closed =
    let (adjacency, p, holds) = attached subtasks unique closed in
    let indegree = fill (λ t. pos (length t.depends_on)) subtasks empty in
    let key = order_key (enumerate 0 subtasks empty) in
    let start : (c : String)
        → mem c (ids subtasks) ≡ true
        → indegree c ≡ some (pos (length (deps_of c subtasks))) =
      λ c m.
        let (t, q, r) = find-mem c subtasks m in
        fill-find (λ u. pos (length u.depends_on)) subtasks empty c t unique q
        ∙ ap (λ z. some (pos (length z))) (sym (deps_of-find c subtasks t unique q)) in
    let (queue, q, v) =
      ready subtasks unique closed (sort_by key) (count-sort_by key) adjacency holds indegree
        start in
    let (indegree', ordered, r, w) =
      run subtasks unique closed (sort_by key) (count-sort_by key) adjacency holds indegree start
        queue v in
    let fit = λ (h : length ordered ≡ length subtasks).
      run_ordered subtasks unique closed (sort_by key) (count-sort_by key) adjacency holds indegree
        start indegree' ordered w h in
    let full = λ (order : List Subtask) (h : IsTopologicalOrder subtasks order).
      run_complete subtasks unique closed (sort_by key) (count-sort_by key) adjacency holds indegree
        start indegree' ordered w order h in
    let e : topologically_sorted_subtasks subtasks
        ≡ (if length ordered == length subtasks then ok ordered else err cycle) =
      ground (
        arith,
        p,
        q,
        r,
        place-kahn (suc (length subtasks)) adjacency key (subtasks_by_id subtasks) indegree queue
            [],
      ) in
    subst (Outcome subtasks) (sym e) (Outcome-of subtasks ordered fit full)

-- For subtasks of different ids that depend on ids of the plan alone: if the plan can be ordered, the
-- sort returns an ordering; if not, it raises the cycle error.
pub sort_total :
    (subtasks : List Subtask)
    → distinct (ids subtasks) ≡ true
    → DepsKnown (ids subtasks) subtasks
    → ((order : List Subtask) × (topologically_sorted_subtasks subtasks ≡ ok order)
        × IsTopologicalOrder subtasks order)
      ⊎ ((topologically_sorted_subtasks subtasks ≡ err cycle)
          × ((order : List Subtask) → ¬ IsTopologicalOrder subtasks order))
sort_total subtasks unique closed =
    go (topologically_sorted_subtasks subtasks) (sort-Outcome subtasks unique closed)
  where
    go :
        (r : Result Error (List Subtask))
        → Outcome subtasks r
        → ((order : List Subtask) × (r ≡ ok order) × IsTopologicalOrder subtasks order)
          ⊎ ((r ≡ err cycle) × ((order : List Subtask) → ¬ IsTopologicalOrder subtasks order))
    go (ok o) (sorted o' h) = inl (o', refl, h)
    go (err c) (stuck h) = inr (refl, h)
