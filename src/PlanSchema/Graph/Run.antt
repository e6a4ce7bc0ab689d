-- ===== src/PlanSchema/Graph/Run.antt =====
-- Kahn's loop on a plan whose ids are distinct and whose dependencies are known: it starts from
-- the invariant, ends, and leaves all subtasks exactly if they can be ordered.
use ai_devops.Common.{
  ℕ, suc, ◌≤◌, String, List, [], ◌∷◌, ◌++◌, ◌≡◌, refl, sym, ap, true, false, arith, ◌&&◌, ◌==◌,
  some, All, length, length-map, if◌then◌else◌, eq_iff, eq_refl, append-nil, str_eq, subst,
  Bool-cases, inl, inr,
}
use ai_devops.Common.Names.{mem, count, mem-append, distinct}
use ai_devops.Common.Int.{ℤ, pos, is_zero-pos}
use ai_devops.Common.Dict.{Dict, empty}
use ai_devops.Common.Result.{ok}
use ai_devops.PlanSchema.Graph.{ids, fill, attach, sources, subtasks_by_id}
use ai_devops.PlanSchema.Graph.Counts.{
  pending, pending-nil, pending-zero_of_All, mem-count, count-distinct, count-zero_of_not_mem,
  length-le_of_count, count-eq_of_length,
}
use ai_devops.PlanSchema.Graph.Build.{
  Holds, Holds-eq, deps_of, DepsKnown, fill_const, fill-find, find-mem, deps_of_not_mem,
  deps_of-find, attach-Holds,
}
use ai_devops.PlanSchema.Graph.Loop.{Inv, InOrder, kahn, kahn-Inv}
use ai_devops.PlanSchema.Types.{Subtask}

-- `order` holds the subtasks of the plan, each as often as the plan does, and each behind its
-- dependencies.
pub record IsTopologicalOrder (subtasks order : List Subtask) : Type 0 where
  pub drawn : All (λ t. subtasks_by_id subtasks t.id ≡ some t) order
  pub complete : (c : String) → count c (ids order) ≡ count c (ids subtasks)
  pub in_order : InOrder [] order

sources_lem :
    (indegree : Dict ℤ) (n : String → ℕ) (xs : List String)
    → All (λ c. indegree c ≡ some (pos (n c))) xs
    → (queue : List String) × (sources indegree xs ≡ ok queue)
      × ((c : String) → count c queue ≡ (if n c == 0 then count c xs else 0))
unfolding sources
sources_lem indegree n [] h = ([], refl, λ c. ground arith)
sources_lem indegree n (x ∷ xs) h =
    let (queue, e, k) = sources_lem indegree n xs h.1 in
    (
      (if n x == 0 then x ∷ queue else queue),
      ground (arith, is_zero-pos (n x)),
      λ c. ground (arith, k c, eq_iff c x, ap n {x = c} {y = x}),
    )

All-of_mem :
    (P : String → Type 0) (ys xs : List String)
    → ((c : String) → mem c ys ≡ true → P c)
    → ((c : String) → mem c xs ≡ true → mem c ys ≡ true)
    → All P xs
All-of_mem P ys [] h k = tt
All-of_mem P ys (x ∷ xs) h k =
    (h x (k x (ground (arith, eq_refl x))), All-of_mem P ys xs h (λ c m. k c (ground (arith, m))))

module _ (subtasks : List Subtask) (unique : distinct (ids subtasks) ≡ true)
    (closed : DepsKnown (ids subtasks) subtasks) where
  abbrev deps : String → List String
  deps c = deps_of c subtasks

  start_Holds : Holds (ids subtasks) (λ d c. 0) (fill (λ t. []) subtasks empty)
  start_Holds = record {
    children =
        λ d m. ([], ground (arith, fill_const {V = List String} [] subtasks empty d), λ c. refl);
  }

  pub attached :
      (adjacency : Dict (List String)) × (attach subtasks (fill (λ t. []) subtasks empty)
        ≡ ok adjacency)
      × Holds (ids subtasks) (λ d c. count d (deps c)) adjacency
  attached =
      let (adjacency, e, h) =
        attach-Holds (ids subtasks) (λ d c. 0) subtasks (fill (λ t. []) subtasks empty) closed
          start_Holds in
      (adjacency, e, Holds-eq (ids subtasks) _ _ (λ d c. omega arith) h)

  pub outside : (c : String) → mem c (ids subtasks) ≡ false → deps c ≡ []
  outside c m = deps_of_not_mem c subtasks m

  pub known :
      (c : String)
      → mem c (ids subtasks) ≡ true
      → (t : Subtask) × (subtasks_by_id subtasks c ≡ some t) × (t.id ≡ c) × (t.depends_on ≡ deps c)
  unfolding subtasks_by_id
  known c m =
      let (t, p, q) = find-mem c subtasks m in
      (
        t,
        fill-find (λ u. u) subtasks empty c t unique p,
        q,
        sym (deps_of-find c subtasks t unique p),
      )

  module _ (arrange : List String → List String)
      (kept : (c : String) (xs : List String) → count c (arrange xs) ≡ count c xs)
      (adjacency : Dict (List String))
      (holds : Holds (ids subtasks) (λ d c. count d (deps c)) adjacency) (indegree : Dict ℤ)
      (start : (c : String)
        → mem c (ids subtasks) ≡ true
        → indegree c ≡ some (pos (length (deps c)))) where
    abbrev pub Invariant : Dict ℤ → List String → List Subtask → Type 0
    Invariant =
        Inv (ids subtasks) deps adjacency (subtasks_by_id subtasks) arrange holds outside known kept

    pub ready :
        (queue : List String) × (sources indegree (ids subtasks) ≡ ok queue)
        × Invariant indegree queue []
    ready =
        let (queue, e, k) =
          sources_lem indegree (λ c. length (deps c)) (ids subtasks)
            (All-of_mem (λ c. indegree c ≡ some (pos (length (deps c)))) (ids subtasks)
              (ids subtasks) start (λ c m. m)) in
        (
          queue,
          e,
          record {
            front = record {
              degrees = λ c m. ground (arith, start c m, pending-nil (deps c));
              zeros = λ c.
                  ground (arith, k c, pending-nil (deps c), count-distinct c (ids subtasks) unique);
            };
            in_order = tt;
            drawn = tt;
          },
        )

    pub run :
        (queue : List String)
        → Invariant indegree queue []
        → (indegree' : Dict ℤ) × (ordered : List Subtask) × (kahn arrange
              (suc (length subtasks))
              adjacency
              (subtasks_by_id subtasks)
              indegree
              queue
              []
            ≡ ok ordered)
          × Invariant indegree' [] ordered
    run queue v =
        kahn-Inv (ids subtasks) deps adjacency (subtasks_by_id subtasks) arrange holds outside known
          kept (suc (length subtasks)) indegree queue []
          (omega (arith, length-map (λ (t : Subtask). t.id) subtasks)) v

    module _ (indegree' : Dict ℤ) (ordered : List Subtask)
        (v : Invariant indegree' [] ordered) where
      placed_count :
          (c : String)
          → count c (ids ordered)
            ≡ (if mem c (ids subtasks) && pending (ids ordered) (deps c) == 0 then 1 else 0)
      placed_count c = ground (arith, v.front.zeros c, append-nil (ids ordered))

      placed-le : (c : String) → count c (ids ordered) ≤ count c (ids subtasks)
      placed-le c = ground (arith, placed_count c, mem-count c (ids subtasks))

      own_deps :
          (t : Subtask)
          → subtasks_by_id subtasks t.id ≡ some t
          → mem t.id (ids subtasks) ≡ true
          → t.depends_on ≡ deps t.id
      own_deps t e m = let (u, p, q, r) = known t.id m in ground (arith, p, e, r)

      All-mono :
          (xs ys zs : List String)
          → ((d : String) → mem d xs ≡ true → mem d ys ≡ true)
          → All (λ d. mem d xs ≡ true) zs
          → All (λ d. mem d ys ≡ true) zs
      All-mono xs ys [] h a = tt
      All-mono xs ys (z ∷ zs) h a = (h z a.0, All-mono xs ys zs h a.1)

      -- Every subtask of an ordering is placed, from the first to the last.
      reached :
          (placed : List String) (order : List Subtask)
          → InOrder placed order
          → All (λ t. subtasks_by_id subtasks t.id ≡ some t) order
          → ((d : String) → mem d (ids order) ≡ true → mem d (ids subtasks) ≡ true)
          → ((d : String) → mem d placed ≡ true → mem d (ids ordered) ≡ true)
          → (d : String) → mem d (ids order) ≡ true
          → mem d (ids ordered) ≡ true
      reached placed [] o a n h d m = cc
      reached placed (t ∷ order) o a n h d m =
          let inside : mem t.id (ids subtasks) ≡ true = n t.id (ground (arith, eq_refl t.id)) in
          let settled : pending (ids ordered) (deps t.id) ≡ 0 =
            pending-zero_of_All (ids ordered) (deps t.id) (
              subst (All (λ z. mem z (ids ordered) ≡ true)) (own_deps t a.0 inside)
                (All-mono placed (ids ordered) t.depends_on h o.0)) in
          let here : mem t.id (ids ordered) ≡ true =
            ground (arith, placed_count t.id, count-zero_of_not_mem t.id (ids ordered)) in
          elim (Bool-cases (str_eq d t.id)) [
            | inl e ↦ rw ((eq_iff d t.id).0 e) here
            | inr e ↦
                reached (placed ++ t.id ∷ []) order o.1 a.1 (λ z k. n z (ground arith))
                  (λ z k. ground (
                    arith,
                    mem-append z placed (t.id ∷ []),
                    h z,
                    eq_iff z t.id,
                    ap (λ y. mem y (ids ordered)) {x = z} {y = t.id},
                  ))
                  d (ground arith)
          ]

      -- If the plan has an ordering, the loop places every subtask.
      pub run_complete :
          (order : List Subtask)
          → IsTopologicalOrder subtasks order
          → length ordered ≡ length subtasks
      run_complete order o = omega (
        arith,
        length-le_of_count (ids ordered) (ids subtasks) placed-le,
        length-le_of_count (ids subtasks) (ids ordered) above,
        length-map (λ (t : Subtask). t.id) subtasks,
        length-map (λ (t : Subtask). t.id) ordered,
      )
        where
          inside : (d : String) → mem d (ids order) ≡ true → mem d (ids subtasks) ≡ true
          inside d m =
              ground (
                arith,
                o.complete d,
                mem-count d (ids order),
                count-zero_of_not_mem d (ids subtasks),
              )

          above : (c : String) → count c (ids subtasks) ≤ count c (ids ordered)
          above c = ground (
            arith,
            count-distinct c (ids subtasks) unique,
            o.complete c,
            mem-count c (ids ordered),
            count-zero_of_not_mem c (ids order),
            reached [] order o.in_order o.drawn inside (λ z k. cc) c,
          )

      -- If the loop places as many subtasks as the plan has, it has ordered the plan.
      pub run_ordered : length ordered ≡ length subtasks → IsTopologicalOrder subtasks ordered
      run_ordered e = record {
        drawn = v.drawn;
        complete = count-eq_of_length (ids ordered) (ids subtasks) placed-le (
            omega (
              arith,
              e,
              length-map (λ (t : Subtask). t.id) subtasks,
              length-map (λ (t : Subtask). t.id) ordered,
            ));
        in_order = v.in_order;
      }
