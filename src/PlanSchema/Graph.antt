-- ===== src/PlanSchema/Graph.antt =====
-- The dependency graph of a plan: `_validate_dependencies`, `subtasks_by_id` and
-- `topologically_sorted_subtasks` of orchestrator/bin/plan_schema.py.
-- A `while` loop takes fuel: one round for each subtask and one more.
pub mod Counts
pub mod Relax
pub mod Build
pub mod Link
pub mod Loop
pub mod Run
pub mod Validate
pub mod Order
pub mod Drawn
pub mod Tests
use ai_devops.Common.{
  ℕ, zero, suc, ◌+◌, String, List, [], ◌∷◌, ◌++◌, map, Option, none, some, Bool, true, false,
  length, ltb, leb, ◌==◌, if◌then◌else◌, not,
}
use ai_devops.Common.Names.{mem, distinct}
use ai_devops.Common.Int.{ℤ, pos, suc_ℤ, pred_ℤ, is_zero}
use ai_devops.Common.Dict.{Dict, empty, put, get_item, modify}
use ai_devops.Common.Result.{Result, ok, err, ◌>>=◌, ◌>>◌}
use ai_devops.PlanSchema.Types.{
  Subtask, Error, duplicate_ids, cycle, unknown_dependency, key_error, out_of_fuel,
}

abbrev pub ids : List Subtask → List String
ids tasks = map (λ t. t.id) tasks

pub record Graph : Type 0 where
  pub indegree : Dict ℤ
  pub adjacency : Dict (List String)

-- {subtask.id: v for subtask in subtasks}
pub fill : {V : Type 0} → (Subtask → V) → List Subtask → Dict V → Dict V
fill f [] d = d
fill f (t ∷ ts) d = fill f ts (put d t.id (f t))

-- the loop over `subtask.depends_on`, with its guard
pub link_deps : List String → String → List String → Graph → Result Error Graph
link_deps known id [] g = ok g
link_deps known id (dep ∷ deps) g =
    if mem dep known
    then (do
      adjacency ← modify key_error (λ children. children ++ id ∷ []) dep g.adjacency
      indegree ← modify key_error suc_ℤ id g.indegree
      link_deps known id deps (record { indegree = indegree; adjacency = adjacency }))
    else err (unknown_dependency id dep)

-- the loop over the subtasks
pub link : List String → List Subtask → Graph → Result Error Graph
link known [] g = ok g
link known (t ∷ ts) g = do g' ← link_deps known t.id t.depends_on g; link known ts g'

-- the loop over the children of the current node: each loses one from its indegree, and those
-- that reach zero are appended to `out`
pub relax : List String → Dict ℤ → List String → Result Error (Dict ℤ × List String)
relax [] indegree out = ok (indegree, out)
relax (child ∷ children) indegree out = do
  n ← get_item key_error indegree child
  relax children (put indegree child (pred_ℤ n))
      (if is_zero (pred_ℤ n) then out ++ child ∷ [] else out)

-- the `while queue` loop of `_validate_dependencies`
pub visit : ℕ → Dict (List String) → Dict ℤ → List String → ℕ → Result Error ℕ
visit zero adjacency indegree queue visited = err out_of_fuel
visit (suc fuel) adjacency indegree [] visited = ok visited
visit (suc fuel) adjacency indegree (current ∷ queue) visited = do
  children ← get_item key_error adjacency current
  after ← relax children indegree queue
  visit fuel adjacency after.0 after.1 (visited + 1)

-- the ids whose indegree is zero, in order
pub sources : Dict ℤ → List String → Result Error (List String)
sources indegree [] = ok []
sources indegree (x ∷ xs) = do
  n ← get_item key_error indegree x
  rest ← sources indegree xs
  ok (if is_zero n then x ∷ rest else rest)

-- _validate_dependencies
pub validate_dependencies : List Subtask → Result Error (Unit {0})
validate_dependencies subtasks =
    let known = ids subtasks in
    if distinct known
    then (do
      g ← link known subtasks (record {
        indegree = fill (λ t. pos 0) subtasks empty;
        adjacency = fill (λ t. []) subtasks empty;
      })
      queue ← sources g.indegree known
      visited ← visit (suc (length subtasks)) g.adjacency g.indegree queue 0
      if visited == length subtasks then ok tt else err cycle)
    else err duplicate_ids

-- subtasks_by_id
pub subtasks_by_id : List Subtask → Dict Subtask
unfolding fill
subtasks_by_id subtasks = fill (λ t. t) subtasks empty

-- {subtask.id: index for index, subtask in enumerate(self.subtasks)}
pub enumerate : ℕ → List Subtask → Dict ℕ → Dict ℕ
enumerate i [] d = d
enumerate i (t ∷ ts) d = enumerate (suc i) ts (put d t.id i)

-- adjacency[dep].append(subtask.id), for every dependency of every subtask
pub attach_deps : String → List String → Dict (List String) → Result Error (Dict (List String))
attach_deps id [] adjacency = ok adjacency
attach_deps id (dep ∷ deps) adjacency = do
  adjacency' ← modify key_error (λ children. children ++ id ∷ []) dep adjacency
  attach_deps id deps adjacency'

pub attach : List Subtask → Dict (List String) → Result Error (Dict (List String))
attach [] adjacency = ok adjacency
attach (t ∷ ts) adjacency = do
  adjacency' ← attach_deps t.id t.depends_on adjacency
  attach ts adjacency'

-- original_order.get: every child is the id of a subtask, so the key is always there
pub order_key : Dict ℕ → String → ℕ
order_key order x = elim (order x) [ none ↦ 0 | some i ↦ i ]

-- `list.sort(key=...)`, which is stable
pub insert_by : (String → ℕ) → String → List String → List String
insert_by key x [] = x ∷ []
insert_by key x (y ∷ ys) = if leb (key x) (key y) then x ∷ y ∷ ys else y ∷ insert_by key x ys

pub sort_by : (String → ℕ) → List String → List String
sort_by key [] = []
sort_by key (x ∷ xs) = insert_by key x (sort_by key xs)

-- the `while ready` loop of `topologically_sorted_subtasks`
pub place :
    ℕ
    → Dict (List String)
    → (String → ℕ)
    → Dict Subtask
    → Dict ℤ
    → List String
    → List Subtask
    → Result Error (List Subtask)
place zero adjacency key by_id indegree ready ordered = err out_of_fuel
place (suc fuel) adjacency key by_id indegree [] ordered = ok ordered
place (suc fuel) adjacency key by_id indegree (current ∷ ready) ordered = do
  task ← get_item key_error by_id current
  children ← get_item key_error adjacency current
  after ← relax children indegree []
  place fuel adjacency key by_id after.0 (ready ++ sort_by key after.1) (ordered ++ task ∷ [])

-- topologically_sorted_subtasks
pub topologically_sorted_subtasks : List Subtask → Result Error (List Subtask)
topologically_sorted_subtasks subtasks = do
  let indegree = fill (λ t. pos (length t.depends_on)) subtasks empty
  let order = enumerate 0 subtasks empty
  adjacency ← attach subtasks (fill (λ t. []) subtasks empty)
  ready ← sources indegree (ids subtasks)
  ordered ←
      place (suc (length subtasks)) adjacency (order_key order) (subtasks_by_id subtasks) indegree
        ready []
  if length ordered == length subtasks then ok ordered else err cycle
