-- ===== src/PlanSchema/Graph/Link.antt =====
-- The loop that builds the graph in `_validate_dependencies`: it accepts exactly the known
-- dependencies, and builds the adjacency of `attach` beside the indegrees.
use ai_devops.Common.{
  ℕ, suc, ◌+◌, String, List, [], ◌∷◌, ◌++◌, ◌≡◌, refl, arith, some, ap, eq_refl, Option-cases, All,
  length, if◌then◌else◌, str_eq, eq_iff, length-append, true, Bool-cases, inl, inr,
}
use ai_devops.Common.Names.{mem}
use ai_devops.Common.Int.{pos, suc_ℤ}
use ai_devops.Common.Dict.{Dict, put, modify}
use ai_devops.Common.Result.{ok, ◌>>=◌, >>=-eq-ok}
use ai_devops.PlanSchema.Graph.{Graph, attach, attach_deps, link, link_deps}
use ai_devops.PlanSchema.Graph.Build.{deps_of, DepsKnown}
use ai_devops.PlanSchema.Types.{Subtask, key_error}

link_deps-attach_deps :
    (known : List String) (id : String) (deps : List String) (g : Graph) (a : Dict (List String))
    (n : ℕ)
    → All (λ d. mem d known ≡ true) deps
    → attach_deps id deps g.adjacency ≡ ok a
    → g.indegree id ≡ some (pos n)
    → (g' : Graph) × (link_deps known id deps g ≡ ok g')
      × (g'.adjacency ≡ a)
      × ((c : String)
          → g'.indegree c ≡ (if str_eq c id then some (pos (n + length deps)) else g.indegree c))
unfolding link_deps attach_deps
link_deps-attach_deps known id [] g a n m e h =
    (g, refl, ground arith, λ c. ground (arith, eq_iff c id, ap g.indegree {x = c} {y = id}))
link_deps-attach_deps known id (dep ∷ deps) g a n m e h = elim (Option-cases (g.adjacency dep)) [
  | inl o ↦ ground arith
  | inr (xs, o) ↦
      let g₁ : Graph = record {
        indegree = put g.indegree id (pos (suc n));
        adjacency = put g.adjacency dep (xs ++ id ∷ []);
      } in
      let (g', p, q, r) =
        link_deps-attach_deps known id deps g₁ a (suc n) m.1 (ground arith)
          (ground (arith, eq_refl id)) in
      (g', ground arith, q, λ c. ground (arith, r c, eq_iff c id, eq_iff id c))
]

-- The loop fails on an unknown dependency.
link_deps-known :
    (known : List String) (id : String) (deps : List String) (g : Graph) {g' : Graph}
    → link_deps known id deps g ≡ ok g'
    → All (λ d. mem d known ≡ true) deps
unfolding link_deps
link_deps-known known id [] g e = tt
link_deps-known known id (dep ∷ deps) g {g'} e = elim (Bool-cases (mem dep known)) [
  | inl m ↦
      let (a, p, q) =
        >>=-eq-ok (modify key_error (λ children. children ++ id ∷ []) dep g.adjacency)
          (λ adjacency. do
            indegree ← modify key_error suc_ℤ id g.indegree
            link_deps known id deps (record { indegree = indegree; adjacency = adjacency }))
          {result = g'} (ground arith) in
      let (i, r, u) = >>=-eq-ok (modify key_error suc_ℤ id g.indegree) _ q in
      (m, link_deps-known known id deps (record { indegree = i; adjacency = a }) u)
  | inr m ↦ ground arith
]

pub link-known :
    (known : List String) (ts : List Subtask) (g : Graph) {g' : Graph}
    → link known ts g ≡ ok g'
    → DepsKnown known ts
unfolding link
link-known known [] g e = tt
link-known known (t ∷ ts) g e =
    let (a, p, q) = >>=-eq-ok (link_deps known t.id t.depends_on g) _ e in
    (link_deps-known known t.id t.depends_on g p, link-known known ts a q)

pub link-attach :
    (known : List String) (ts : List Subtask) (g : Graph) (a : Dict (List String)) (n : String → ℕ)
    → DepsKnown known ts
    → All (λ t. mem t.id known ≡ true) ts
    → attach ts g.adjacency ≡ ok a
    → ((c : String) → mem c known ≡ true → g.indegree c ≡ some (pos (n c)))
    → (g' : Graph) × (link known ts g ≡ ok g')
      × (g'.adjacency ≡ a)
      × ((c : String)
          → mem c known ≡ true
          → g'.indegree c ≡ some (pos (n c + length (deps_of c ts))))
unfolding link attach
link-attach known [] g a n m i e h = (g, refl, ground arith, λ c mc. ground (arith, h c mc))
link-attach known (t ∷ ts) g a n m i e h =
    let (b, p, q) = >>=-eq-ok (attach_deps t.id t.depends_on g.adjacency) _ e in
    let (g₁, p₁, q₁, r₁) =
      link_deps-attach_deps known t.id t.depends_on g b (n t.id) m.0 p (h t.id i.0) in
    let (g₂, p₂, q₂, r₂) =
      link-attach known ts g₁ a (λ c. n c + (if str_eq c t.id then length t.depends_on else 0)) m.1
        i.1 (rw q₁ q)
        (λ c mc. ground (arith, r₁ c, h c mc, eq_iff c t.id, ap n {x = c} {y = t.id})) in
    (
      g₂,
      ground arith,
      q₂,
      λ c mc. ground (arith, r₂ c mc, length-append t.depends_on (deps_of c ts)),
    )
