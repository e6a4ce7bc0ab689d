-- ===== src/PlanSchema/Graph/Build.antt =====
-- The dictionaries that the graph algorithms start from: what `fill`, `attach` and `link` build.
use ai_devops.Common.{
  ℕ, ◌+◌, String, List, [], ◌∷◌, ◌++◌, ◌≡◌, refl, ◌∙◌, sym, ap, true, false, arith, ◌&&◌, some,
  none, Option, All, if◌then◌else◌, str_eq, eq_iff, append-nil, Bool-cases, inl, inr,
}
use ai_devops.Common.Names.{mem, count, count-append, distinct}
use ai_devops.Common.Dict.{Dict, put}
use ai_devops.Common.Result.{ok}
use ai_devops.PlanSchema.Graph.{ids, fill, attach, attach_deps}
use ai_devops.PlanSchema.Types.{Subtask}

-- The dependencies that the subtasks with the id `c` name.
abbrev pub deps_of : String → List Subtask → List String
deps_of c [] = []
deps_of c (t ∷ ts) = if str_eq c t.id then t.depends_on ++ deps_of c ts else deps_of c ts

-- Every dependency is one of `nodes`.
abbrev pub DepsKnown : List String → List Subtask → Type 0
DepsKnown nodes = All (λ t. All (λ d. mem d nodes ≡ true) t.depends_on)

-- The first subtask with the id `c`.
abbrev pub find : String → List Subtask → Option Subtask
find c [] = none
find c (t ∷ ts) = if str_eq c t.id then some t else find c ts

pub fill_const :
    {V : Type 0} (v : V) (ts : List Subtask) (d : Dict V) (c : String)
    → fill (λ t. v) ts d c ≡ (if mem c (ids ts) then some v else d c)
unfolding fill
fill_const v [] d c = refl
fill_const v (t ∷ ts) d c =
    ground (arith, fill_const v ts (put d t.id v) c, eq_iff t.id c, eq_iff c t.id)

fill_other :
    {V : Type 0} (f : Subtask → V) (ts : List Subtask) (d : Dict V) (c : String)
    → mem c (ids ts) ≡ false
    → fill f ts d c ≡ d c
unfolding fill
fill_other f [] d c h = refl
fill_other f (t ∷ ts) d c h =
    ground (arith, fill_other f ts (put d t.id (f t)) c, eq_iff t.id c, eq_iff c t.id)

-- With distinct ids the dictionary holds each subtask's own value.
pub fill-find :
    {V : Type 0} (f : Subtask → V) (ts : List Subtask) (d : Dict V) (c : String) (t : Subtask)
    → distinct (ids ts) ≡ true
    → find c ts ≡ some t
    → fill f ts d c ≡ some (f t)
unfolding fill
fill-find f [] d c u h e = cc
fill-find f (t ∷ ts) d c u h e = ground (
  arith,
  fill_other f ts (put d t.id (f t)) c,
  fill-find f ts (put d t.id (f t)) c u,
  eq_iff t.id c,
  eq_iff c t.id,
  ap f {x = t} {y = u},
)

pub find-mem :
    (c : String) (ts : List Subtask)
    → mem c (ids ts) ≡ true
    → (t : Subtask) × (find c ts ≡ some t) × (t.id ≡ c)
find-mem c [] h = cc
find-mem c (t ∷ ts) h = elim (Bool-cases (str_eq c t.id)) [
  | inl e ↦ (t, ground arith, sym ((eq_iff c t.id).0 e))
  | inr e ↦ let (u, p, q) = find-mem c ts (ground arith) in (u, ground arith, q)
]

pub deps_of_not_mem : (c : String) (ts : List Subtask) → mem c (ids ts) ≡ false → deps_of c ts ≡ []
deps_of_not_mem c [] h = refl
deps_of_not_mem c (t ∷ ts) h = ground (arith, deps_of_not_mem c ts)

pub deps_of-find :
    (c : String) (ts : List Subtask) (t : Subtask)
    → distinct (ids ts) ≡ true
    → find c ts ≡ some t
    → deps_of c ts ≡ t.depends_on
deps_of-find c [] u h e = cc
deps_of-find c (t ∷ ts) u h e =
    ground
      (arith, deps_of-find c ts u, deps_of_not_mem c ts, eq_iff c t.id, append-nil t.depends_on)

-- `edges d c` children of `d` are `c`.
pub record Holds (nodes : List String) (edges : String → String → ℕ)
    (adjacency : Dict (List String)) : Type 0 where
  pub children :
      (d : String)
      → mem d nodes ≡ true
      → (xs : List String) × (adjacency d ≡ some xs) × ((c : String) → count c xs ≡ edges d c)

pub Holds-eq :
    (nodes : List String) (edges edges' : String → String → ℕ) {adjacency : Dict (List String)}
    → ((d c : String) → edges d c ≡ edges' d c)
    → Holds nodes edges adjacency
    → Holds nodes edges' adjacency
Holds-eq nodes edges edges' e h = record {
  children = λ d m. let (xs, p, q) = h.children d m in (xs, p, λ c. q c ∙ e d c);
}

module _ (nodes : List String) where
  added : String → String → String → String → ℕ
  added id dep d c = if str_eq c id && str_eq d dep then 1 else 0

  put-Holds :
      (edges : String → String → ℕ) (id dep : String) (xs : List String)
      (adjacency : Dict (List String))
      → adjacency dep ≡ some xs
      → ((c : String) → count c xs ≡ edges dep c)
      → Holds nodes edges adjacency
      → Holds nodes (λ d c. edges d c + added id dep d c) (put adjacency dep (xs ++ id ∷ []))
  unfolding added
  put-Holds edges id dep xs adjacency p q h = record {
    children = λ d m. elim (Bool-cases (str_eq dep d)) [
      | inl e ↦ (
        xs ++ id ∷ [],
        ground arith,
        λ c. ground (
          arith,
          q c,
          count-append c xs (id ∷ []),
          eq_iff dep d,
          eq_iff d dep,
          ap (λ z. edges z c) ((eq_iff dep d).0 e),
        ),
      )
      | inr e ↦
          let (ys, r, s) = h.children d m in
          (ys, ground arith, λ c. ground (arith, s c, eq_iff dep d, eq_iff d dep))
    ];
  }

  pub attach_deps-Holds :
      (edges : String → String → ℕ) (id : String) (deps : List String)
      (adjacency : Dict (List String))
      → All (λ d. mem d nodes ≡ true) deps
      → Holds nodes edges adjacency
      → (adjacency' : Dict (List String)) × (attach_deps id deps adjacency ≡ ok adjacency')
        × Holds nodes (λ d c. edges d c + (if str_eq c id then count d deps else 0)) adjacency'
  unfolding attach_deps added
  attach_deps-Holds edges id [] adjacency m h =
      (adjacency, refl, Holds-eq nodes edges _ (λ d c. ground arith) h)
  attach_deps-Holds edges id (dep ∷ deps) adjacency m h =
      let (xs, p, q) = h.children dep m.0 in
      let (adjacency', e, h') =
        attach_deps-Holds (λ d c. edges d c + added id dep d c) id deps
          (put adjacency dep (xs ++ id ∷ [])) m.1 (put-Holds edges id dep xs adjacency p q h) in
      (adjacency', ground arith, Holds-eq nodes _ _ (λ d c. ground arith) h')

  pub attach-Holds :
      (edges : String → String → ℕ) (ts : List Subtask) (adjacency : Dict (List String))
      → DepsKnown nodes ts
      → Holds nodes edges adjacency
      → (adjacency' : Dict (List String)) × (attach ts adjacency ≡ ok adjacency')
        × Holds nodes (λ d c. edges d c + count d (deps_of c ts)) adjacency'
  unfolding attach
  attach-Holds edges [] adjacency m h =
      (adjacency, refl, Holds-eq nodes edges _ (λ d c. omega arith) h)
  attach-Holds edges (t ∷ ts) adjacency m h =
      let (a, e, h') = attach_deps-Holds edges t.id t.depends_on adjacency m.0 h in
      let (a', e', h'') =
        attach-Holds (λ d c. edges d c + (if str_eq c t.id then count d t.depends_on else 0)) ts a
          m.1 h' in
      (
        a',
        ground arith,
        Holds-eq nodes _ _ (λ d c. ground (arith, count-append d t.depends_on (deps_of c ts))) h'',
      )
