-- ===== src/PlanSchema/Graph/Validate.antt =====
-- `_validate_dependencies`: it accepts exactly the plans that can be ordered, and an accepted
-- plan is sorted without an error.
use ai_devops.Common.{
  ℕ, zero, suc, String, List, [], ◌∷◌, ◌++◌, ◌≡◌, refl, subst, true, arith, some, All, length,
  length-append, ◌==◌, ==_iff, if◌then◌else◌, Bool-cases, inl, inr, ◌↔◌, ◌⊎◌, append-nil,
  append_assoc, Option-cases, eq_refl,
}
use ai_devops.Common.Names.{mem, mem-append, distinct}
use ai_devops.Common.Int.{ℤ, pos, pred_ℤ}
use ai_devops.Common.Dict.{Dict, empty, put, get_item}
use ai_devops.Common.Result.{Result, ok, err, ◌>>=◌, >>=-eq-ok}
use ai_devops.PlanSchema.Graph.{
  Graph, ids, fill, link, sources, subtasks_by_id, visit, relax, validate_dependencies,
  topologically_sorted_subtasks,
}
use ai_devops.PlanSchema.Graph.Build.{deps_of, DepsKnown, fill_const}
use ai_devops.PlanSchema.Graph.Link.{link-known, link-attach}
use ai_devops.PlanSchema.Graph.Loop.{kahn}
use ai_devops.PlanSchema.Graph.Run.{
  IsTopologicalOrder, attached, ready, run, run_complete, run_ordered,
}
use ai_devops.PlanSchema.Graph.Order.{sort_total}
use ai_devops.PlanSchema.Types.{Subtask, Error, cycle, key_error}

-- What stands in the queue before the children are relaxed stays in front.
relax-append :
    (children : List String) (indegree : Dict ℤ) (base out : List String)
    → relax children indegree (base ++ out)
      ≡ (relax children indegree out >>= λ r. ok (r.0, base ++ r.1))
unfolding relax
relax-append [] indegree base out = refl
relax-append (child ∷ children) indegree base out = elim (Option-cases (indegree child)) [
  | inl e ↦ ground arith
  | inr (n, e) ↦
      let after = put indegree child (pred_ℤ n) in
      ground (
        arith,
        append_assoc base out (child ∷ []),
        relax-append children after base (out ++ child ∷ []),
        relax-append children after base out,
      )
]

visit-kahn :
    (fuel : ℕ) (adjacency : Dict (List String)) (by_id : Dict Subtask) (indegree : Dict ℤ)
    (queue : List String) (ordered : List Subtask) {ordered' : List Subtask}
    → kahn (λ xs. xs) fuel adjacency by_id indegree queue ordered ≡ ok ordered'
    → visit fuel adjacency indegree queue (length ordered) ≡ ok (length ordered')
unfolding visit kahn
visit-kahn zero adjacency by_id indegree queue ordered e = cc
visit-kahn (suc fuel) adjacency by_id indegree [] ordered e = ground arith
visit-kahn (suc fuel) adjacency by_id indegree (current ∷ queue) ordered e =
    let (t, p, e₁) = >>=-eq-ok (get_item key_error by_id current) _ e in
    let (children, q, e₂) = >>=-eq-ok (get_item key_error adjacency current) _ e₁ in
    let (after, r, e₃) = >>=-eq-ok (relax children indegree []) _ e₂ in
    let next = visit-kahn fuel adjacency by_id after.0 (queue ++ after.1) (ordered ++ t ∷ []) e₃ in
    ground (
      arith,
      q,
      r,
      relax-append children indegree queue [],
      append-nil queue,
      length-append ordered (t ∷ []),
      next,
    )

own_ids :
    (before : List String) (ts : List Subtask) → All (λ t. mem t.id (before ++ ids ts) ≡ true) ts
own_ids before [] = tt
own_ids before (t ∷ ts) = (
  ground (arith, mem-append t.id before (t.id ∷ ids ts), eq_refl t.id),
  subst (λ z. All (λ (u : Subtask). mem u.id z ≡ true) ts)
      (append_assoc before (t.id ∷ []) (ids ts)) (own_ids (before ++ t.id ∷ []) ts),
)

-- On distinct ids and known dependencies the validation turns on whether an ordering exists.
decided :
    (subtasks ordered : List Subtask)
    → (length ordered ≡ length subtasks → IsTopologicalOrder subtasks ordered)
    → ((order : List Subtask)
        → IsTopologicalOrder subtasks order
        → length ordered ≡ length subtasks)
    → {r : Result Error (Unit {0})}
    → r ≡ (if length ordered == length subtasks then ok tt else err cycle)
    → ((r ≡ ok tt) × ((order : List Subtask) × IsTopologicalOrder subtasks order))
      ⊎ ((r ≡ err cycle) × ((order : List Subtask) → ¬ IsTopologicalOrder subtasks order))
decided subtasks ordered fit full e = elim (Bool-cases (length ordered == length subtasks)) [
  | inl h ↦ inl (ground arith, (ordered, fit ((==_iff (length ordered) (length subtasks)).0 h)))
  | inr h ↦ inr (ground arith, λ order o. ground (arith, full order o))
]

validate_closed :
    (subtasks : List Subtask)
    → distinct (ids subtasks) ≡ true
    → DepsKnown (ids subtasks) subtasks
    → ((validate_dependencies subtasks ≡ ok tt)
        × ((order : List Subtask) × IsTopologicalOrder subtasks order))
      ⊎ ((validate_dependencies subtasks ≡ err cycle)
          × ((order : List Subtask) → ¬ IsTopologicalOrder subtasks order))
unfolding validate_dependencies
validate_closed subtasks unique closed =
    let (adjacency, p, holds) = attached subtasks unique closed in
    let g₀ : Graph = record {
      indegree = fill (λ t. pos 0) subtasks empty;
      adjacency = fill (λ t. []) subtasks empty;
    } in
    let (g, l, a, d) =
      link-attach (ids subtasks) subtasks g₀ adjacency (λ c. 0) closed (own_ids [] subtasks) p
        (λ c m. ground (arith, fill_const (pos 0) subtasks empty c)) in
    let start : (c : String)
        → mem c (ids subtasks) ≡ true
        → g.indegree c ≡ some (pos (length (deps_of c subtasks))) =
      λ c m. ground (arith, d c m) in
    let same = λ (xs : List String). xs in
    let kept = λ (c : String) (xs : List String). refl in
    let (queue, q, v) = ready subtasks unique closed same kept adjacency holds g.indegree start in
    let (indegree', ordered, r, w) =
      run subtasks unique closed same kept adjacency holds g.indegree start queue v in
    let fit = λ (h : length ordered ≡ length subtasks).
      run_ordered subtasks unique closed same kept adjacency holds g.indegree start indegree'
        ordered w h in
    let full = λ (order : List Subtask) (h : IsTopologicalOrder subtasks order).
      run_complete subtasks unique closed same kept adjacency holds g.indegree start indegree'
        ordered w order h in
    let counted =
      visit-kahn (suc (length subtasks)) adjacency (subtasks_by_id subtasks) g.indegree queue []
        r in
    let e : validate_dependencies subtasks
        ≡ (if length ordered == length subtasks then ok tt else err cycle) =
      ground (arith, l, a, q, counted) in
    decided subtasks ordered fit full e

accepted :
    (subtasks : List Subtask)
    → validate_dependencies subtasks ≡ ok tt
    → (distinct (ids subtasks) ≡ true)
      × DepsKnown (ids subtasks) subtasks
      × ((order : List Subtask) × IsTopologicalOrder subtasks order)
unfolding validate_dependencies
accepted subtasks e =
    let unique : distinct (ids subtasks) ≡ true = ground arith in
    let g₀ : Graph = record {
      indegree = fill (λ t. pos 0) subtasks empty;
      adjacency = fill (λ t. []) subtasks empty;
    } in
    let (g, l, rest) =
      >>=-eq-ok (link (ids subtasks) subtasks g₀)
        (λ g. do
          queue ← sources g.indegree (ids subtasks)
          visited ← visit (suc (length subtasks)) g.adjacency g.indegree queue 0
          if visited == length subtasks then ok tt else err cycle)
        (rw unique at e) in
    let closed = link-known (ids subtasks) subtasks g₀ l in
    (
      unique,
      closed,
      elim (validate_closed subtasks unique closed) [
        | inl (h, o) ↦ o
        | inr (h, n) ↦ ground (arith, e, h)
      ],
    )

-- The validation accepts a plan exactly if its ids are distinct, its dependencies are ids of the
-- plan, and its subtasks can be ordered with each behind its dependencies.
pub validate_iff :
    (subtasks : List Subtask)
    → (validate_dependencies subtasks ≡ ok tt) ↔ (
        (distinct (ids subtasks) ≡ true)
        × DepsKnown (ids subtasks) subtasks
        × ((order : List Subtask) × IsTopologicalOrder subtasks order))
validate_iff subtasks = (
  accepted subtasks,
  λ (u, k, o). elim (validate_closed subtasks u k) [
    | inl (e, o') ↦ e
    | inr (e, n) ↦ absurd (n o.0 o.1)
  ],
)

-- A plan that the validation accepts is sorted without an error, into an ordering of it.
pub validated_sorts :
    (subtasks : List Subtask)
    → validate_dependencies subtasks ≡ ok tt
    → (order : List Subtask) × (topologically_sorted_subtasks subtasks ≡ ok order)
      × IsTopologicalOrder subtasks order
validated_sorts subtasks e =
    let (u, k, o) = accepted subtasks e in
    elim (sort_total subtasks u k) [ inl s ↦ s | inr (f, n) ↦ absurd (n o.0 o.1) ]
