-- ===== src/PlanSchema/Graph/Loop.antt =====
-- Kahn's loop, with the treatment of the newly freed nodes a parameter `arrange`: the shared
-- invariant of the two `while` loops, that the loop ends, and what it leaves.
use ai_devops.Common.{
  ℕ, zero, suc, ◌+◌, ◌≤◌, ◌<◌, String, List, [], ◌∷◌, ◌++◌, ◌≡◌, refl, ◌∙◌, sym, ap, subst, true,
  false, arith, some, All, All-append, length, length-map, length-append, eq_refl, append_assoc,
  append-nil,
}
use mathlib.Core.List.{map-append}
use ai_devops.Common.Names.{mem, count, count-append}
use ai_devops.Common.Int.{ℤ}
use ai_devops.Common.Dict.{Dict, get_item}
use ai_devops.Common.Result.{Result, ok, err, ◌>>=◌}
use ai_devops.PlanSchema.Graph.{ids, relax}
use ai_devops.PlanSchema.Graph.Counts.{
  pending, pending-snoc, pending-zero, mem-count, length-le_of_count,
}
use ai_devops.PlanSchema.Graph.Relax.{Front, relax-Front}
use ai_devops.PlanSchema.Graph.Build.{Holds}
use ai_devops.PlanSchema.Types.{Subtask, Error, key_error, out_of_fuel}

unfoldable pub kahn :
    (List String → List String)
    → ℕ
    → Dict (List String)
    → Dict Subtask
    → Dict ℤ
    → List String
    → List Subtask
    → Result Error (List Subtask)
kahn arrange zero adjacency by_id indegree queue ordered = err out_of_fuel
kahn arrange (suc fuel) adjacency by_id indegree [] ordered = ok ordered
kahn arrange (suc fuel) adjacency by_id indegree (current ∷ queue) ordered = do
  task ← get_item key_error by_id current
  children ← get_item key_error adjacency current
  after ← relax children indegree []
  kahn arrange fuel adjacency by_id after.0 (queue ++ arrange after.1) (ordered ++ task ∷ [])

-- Each subtask stands behind all of its dependencies; `placed` stands before the list.
abbrev pub InOrder : List String → List Subtask → Type 0
InOrder placed [] = Unit
InOrder placed (t ∷ ts) =
    All (λ d. mem d placed ≡ true) t.depends_on × InOrder (placed ++ t.id ∷ []) ts

InOrder-snoc :
    (placed : List String) (ts : List Subtask) (t : Subtask)
    → InOrder placed ts
    → All (λ d. mem d (placed ++ ids ts) ≡ true) t.depends_on
    → InOrder placed (ts ++ t ∷ [])
InOrder-snoc placed [] t h k = (rw append-nil at k, tt)
InOrder-snoc placed (u ∷ ts) t h k =
    (h.0, InOrder-snoc (placed ++ u.id ∷ []) ts t h.1 (rw append_assoc k))

ids-snoc :
    (ordered : List Subtask) (t : Subtask) → ids (ordered ++ t ∷ []) ≡ ids ordered ++ t.id ∷ []
ids-snoc ordered t = map-append (λ u. u.id) ordered (t ∷ [])

count_regroup :
    (c x : String) (xs queue out out' : List String)
    → count c out' ≡ count c out
    → count c ((xs ++ x ∷ queue) ++ out) ≡ count c ((xs ++ x ∷ []) ++ (queue ++ out'))
count_regroup c x xs queue out out' e = omega (
  arith,
  e,
  count-append c (xs ++ x ∷ queue) out,
  count-append c xs (x ∷ queue),
  count-append c (xs ++ x ∷ []) (queue ++ out'),
  count-append c xs (x ∷ []),
  count-append c queue out',
)

Front-eq :
    (nodes : List String) (left left' : String → ℕ) (children : List String) (indegree : Dict ℤ)
    (listed listed' : List String)
    → ((c : String) → left c ≡ left' c)
    → ((c : String) → count c listed ≡ count c listed')
    → Front nodes left children indegree listed
    → Front nodes left' children indegree listed'
Front-eq nodes left left' children indegree listed listed' p q f = record {
  degrees = λ c h. ground (arith, f.degrees c h, p c);
  zeros = λ c. ground (arith, f.zeros c, p c, q c);
}

module _ (nodes : List String) (deps : String → List String) (adjacency : Dict (List String))
    (by_id : Dict Subtask) (arrange : List String → List String)
    (holds : Holds nodes (λ d c. count d (deps c)) adjacency)
    (outside : (c : String) → mem c nodes ≡ false → deps c ≡ [])
    (known : (c : String)
      → mem c nodes ≡ true
      → (t : Subtask) × (by_id c ≡ some t) × (t.id ≡ c) × (t.depends_on ≡ deps c))
    (kept : (c : String) (xs : List String) → count c (arrange xs) ≡ count c xs) where
  pub record Inv (indegree : Dict ℤ) (queue : List String) (ordered : List Subtask) : Type 0 where
    pub front : Front nodes (λ c. pending (ids ordered) (deps c)) [] indegree (ids ordered ++ queue)
    pub in_order : InOrder [] ordered
    pub drawn : All (λ t. by_id t.id ≡ some t) ordered

  -- All that is listed is a node, once.
  listed-le :
      {indegree : Dict ℤ} {queue : List String} {ordered : List Subtask}
      → Inv indegree queue ordered
      → length ordered + length queue ≤ length nodes
  listed-le {indegree} {queue} {ordered} v = omega (
    arith,
    length-le_of_count (ids ordered ++ queue) nodes
        (λ c. ground (arith, v.front.zeros c, mem-count c nodes)),
    length-append (ids ordered) queue,
    length-map (λ (t : Subtask). t.id) ordered,
  )

  children_known :
      (d : String) (xs : List String)
      → ((c : String) → count c xs ≡ count d (deps c))
      → All (λ c. mem c nodes ≡ true) xs
  children_known d xs h = go xs (λ c m. h c ∙ ap (count d) (outside c m))
    where
      go :
          (ys : List String)
          → ((c : String) → mem c nodes ≡ false → count c ys ≡ 0)
          → All (λ c. mem c nodes ≡ true) ys
      go [] k = tt
      go (y ∷ ys) k = (ground (arith, k y, eq_refl y), go ys (λ c m. ground (arith, k c m)))

  module _ (indegree : Dict ℤ) (current : String) (queue : List String) (ordered : List Subtask)
      (v : Inv indegree (current ∷ queue) ordered) where
    current_free :
        (mem current nodes ≡ true)
        × (pending (ids ordered) (deps current) ≡ 0)
        × (mem current (ids ordered) ≡ false)
    current_free = (
      ground (
        arith,
        v.front.zeros current,
        count-append current (ids ordered) (current ∷ queue),
        eq_refl current,
      ),
      ground (
        arith,
        v.front.zeros current,
        count-append current (ids ordered) (current ∷ queue),
        eq_refl current,
      ),
      ground (
        arith,
        v.front.zeros current,
        count-append current (ids ordered) (current ∷ queue),
        eq_refl current,
        mem-count current (ids ordered),
      ),
    )

    before :
        (children : List String)
        → ((c : String) → count c children ≡ count current (deps c))
        → Front nodes
            (λ c. pending (ids ordered ++ current ∷ []) (deps c))
            children
            indegree
            ((ids ordered ++ current ∷ queue) ++ [])
    before children h = record {
      degrees = λ c m. ground (
        arith,
        v.front.degrees c m,
        h c,
        pending-snoc (ids ordered) current (deps c) current_free.2,
      );
      zeros = λ c. ground (
        arith,
        v.front.zeros c,
        h c,
        append-nil (ids ordered ++ current ∷ queue),
        pending-snoc (ids ordered) current (deps c) current_free.2,
      );
    }

  -- The loop ends within its fuel, with the invariant.
  pub kahn-Inv :
      (fuel : ℕ) (indegree : Dict ℤ) (queue : List String) (ordered : List Subtask)
      → length nodes < fuel + length ordered
      → Inv indegree queue ordered
      → (indegree' : Dict ℤ) × (ordered' : List Subtask) × (kahn arrange fuel adjacency by_id
            indegree queue ordered
          ≡ ok ordered')
        × Inv indegree' [] ordered'
  unfolding kahn
  kahn-Inv zero indegree queue ordered m v = absurd (omega (arith, listed-le v))
  kahn-Inv (suc fuel) indegree [] ordered m v = (indegree, ordered, refl, v)
  kahn-Inv (suc fuel) indegree (current ∷ queue) ordered m v =
      let free = current_free indegree current queue ordered v in
      let (t, e, i, d) = known current free.0 in
      let (children, p, q) = holds.children current free.0 in
      let (indegree₁, out, r, f) =
        relax-Front nodes (λ c. pending (ids ordered ++ current ∷ []) (deps c)) children indegree
          (ids ordered ++ current ∷ queue) [] (children_known current children q)
          (before indegree current queue ordered v children q) in
      let snoc : ids (ordered ++ t ∷ []) ≡ ids ordered ++ current ∷ [] =
        ids-snoc ordered t ∙ ap (λ z. ids ordered ++ z ∷ []) i in
      let v' : Inv indegree₁ (queue ++ arrange out) (ordered ++ t ∷ []) = record {
        front =
            Front-eq nodes _ _ [] indegree₁ _ _ (λ c. ap (λ z. pending z (deps c)) (sym snoc))
              (λ c.
                count_regroup c current (ids ordered) queue out (arrange out) (kept c out)
                ∙ ap (λ z. count c (z ++ (queue ++ arrange out))) (sym snoc))
              f;
        in_order = InOrder-snoc [] ordered t v.in_order (
            subst (All (λ z. mem z (ids ordered) ≡ true)) (sym d)
              (pending-zero (ids ordered) (deps current) free.1));
        drawn = All-append (λ u. by_id u.id ≡ some u) ordered (t ∷ []) v.drawn (ap by_id i ∙ e, tt);
      } in
      let (indegree', ordered', s, w) =
        kahn-Inv fuel indegree₁ (queue ++ arrange out) (ordered ++ t ∷ [])
          (omega (arith, m, length-append ordered (t ∷ []))) v' in
      (indegree', ordered', ground (arith, e, p, r, s), w)
