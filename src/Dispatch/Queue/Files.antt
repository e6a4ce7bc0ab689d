-- ===== src/Dispatch/Queue/Files.antt =====
-- The files of the queue that orchestrator/bin/dispatch.py writes, by their names.
use ai_devops.Common.{
  String, true, false, Option, none, some, List, [], ◌∷◌, map, concat, str_eq, if◌then◌else◌, ◌≡◌,
  refl, sym, ap, subst, ◌∙◌, arith, eq_iff, eq_refl, All, Bool-cases, Option-cases, inl, inr,
}
use ai_devops.Common.Names.{mem, distinct}
use ai_devops.Common.Assoc.{Assoc, lookup, insert, lookup-insert}
use ai_devops.PlanSchema.Json.{Fields}
use ai_devops.PlanSchema.Graph.{ids}
use ai_devops.PlanSchema.Text.{sanitize_identifier}
use ai_devops.PlanSchema.Types.{Plan, Subtask}
use ai_devops.Dispatch.Paths.{Env}
use ai_devops.Dispatch.Tasks.{execution_task_id, build_execution_task}
use ai_devops.Dispatch.Queue.{queue_file}

-- the file that a subtask is queued in
abbrev pub file_of : Plan → Subtask → String
file_of plan t = queue_file (execution_task_id plan t)

-- The last subtask of the list that is queued in the file `k`.
abbrev pub last_in : Plan → String → List Subtask → Option Subtask
last_in plan k [] = none
last_in plan k (t ∷ ts) = elim (last_in plan k ts) [
  | some u ↦ some u
  | none ↦ if str_eq (file_of plan t) k then some t else none
]

-- What the file `k` holds after the subtasks are queued in order: the task of the last one with this
-- file, and without one what it has held before.
abbrev pub held : Env → Plan → List Subtask → Assoc Fields → String → Option Fields
held env plan ts old k = elim (last_in plan k ts) [
  | some t ↦ some (build_execution_task env plan t)
  | none ↦ lookup k old
]

pub held-cons :
    (env : Env) (plan : Plan) (t : Subtask) (ts : List Subtask) (old : Assoc Fields) (k : String)
    → held env plan ts (insert (file_of plan t) (build_execution_task env plan t) old) k
      ≡ held env plan (t ∷ ts) old k
held-cons env plan t ts old k =
    let added = lookup-insert (file_of plan t) k (build_execution_task env plan t) old in
    elim (Option-cases (last_in plan k ts)) [
      | inr (u, e) ↦ ground (arith, e)
      | inl e ↦ ground (arith, e, added)
    ]

mem-map :
    (F : String → String) (x : String) (xs : List String)
    → mem x xs ≡ true
    → mem (F x) (map F xs) ≡ true
mem-map F x [] m = cc
mem-map F x (y ∷ ys) m =
    ground (arith, mem-map F x ys, eq_iff x y, eq_iff (F x) (F y), ap F {x = x} {y = y}, m)

-- Where no two names of the list have the same image, the image tells the name.
pub image_names :
    (F : String → String) (xs : List String) (x y : String)
    → distinct (map F xs) ≡ true
    → mem x xs ≡ true
    → mem y xs ≡ true
    → F x ≡ F y
    → x ≡ y
image_names F [] x y d m n e = absurd (cc m)
image_names F (z ∷ zs) x y d m n e =
    let rest = image_names F zs x y in
    elim (Bool-cases (str_eq x z)) [
      | inl p ↦ elim (Bool-cases (str_eq y z)) [
        | inl q ↦ (eq_iff x z).0 p ∙ sym ((eq_iff y z).0 q)
        | inr q ↦
            let later = mem-map F y zs (ground (arith, n, q)) in
            let same : F z ≡ F y = ap F (sym ((eq_iff x z).0 p)) ∙ e in
            absurd (ground (arith, d, subst (λ a. mem a (map F zs) ≡ true) (sym same) later))
      ]
      | inr p ↦ elim (Bool-cases (str_eq y z)) [
        | inl q ↦
            let later = mem-map F x zs (ground (arith, m, p)) in
            let same : F z ≡ F x = ap F (sym ((eq_iff y z).0 q)) ∙ sym e in
            absurd (ground (arith, d, subst (λ a. mem a (map F zs) ≡ true) (sym same) later))
        | inr q ↦ rest (ground (arith, d)) (ground (arith, m, p)) (ground (arith, n, q)) e
      ]
    ]

-- Different subtasks of the list are queued in different files.
pub record IsApart (plan : Plan) (ts : List Subtask) : Type 0 where
  pub apart :
      (t u : Subtask)
      → mem t.id (ids ts) ≡ true
      → mem u.id (ids ts) ≡ true
      → file_of plan t ≡ file_of plan u
      → t.id ≡ u.id

-- the file of the subtask of this id
abbrev named : Plan → String → String
named plan id = queue_file (sanitize_identifier (concat plan.plan_id (concat "-" id)))

map-named : (plan : Plan) (ts : List Subtask) → map (named plan) (ids ts) ≡ map (file_of plan) ts
unfolding execution_task_id
map-named plan [] = refl
map-named plan (t ∷ ts) = ap (λ xs. file_of plan t ∷ xs) (map-named plan ts)

-- Different files of a plan's subtasks set the subtasks of any selection apart.
pub distinct-IsApart :
    (plan : Plan) (subtasks ts : List Subtask)
    → distinct (map (file_of plan) subtasks) ≡ true
    → ((k : String) → mem k (ids ts) ≡ true → mem k (ids subtasks) ≡ true)
    → IsApart plan ts
unfolding execution_task_id
distinct-IsApart plan subtasks ts d i = record {
  apart = λ t u m n e.
      image_names (named plan) (ids subtasks) t.id u.id (ap distinct (map-named plan subtasks) ∙ d)
        (i t.id m) (i u.id n) e;
}

last_in-none :
    (plan : Plan) (k : String) (ts : List Subtask)
    → All (λ u. str_eq (file_of plan u) k ≡ false) ts
    → last_in plan k ts ≡ none
last_in-none plan k [] a = refl
last_in-none plan k (t ∷ ts) a = rw (last_in-none plan k ts a.1, a.0) refl

others_apart :
    (plan : Plan) (t : Subtask) (ts us : List Subtask)
    → IsApart plan (t ∷ ts)
    → mem t.id (ids us) ≡ false
    → ((k : String) → mem k (ids us) ≡ true → mem k (ids ts) ≡ true)
    → All (λ u. str_eq (file_of plan u) (file_of plan t) ≡ false) us
others_apart plan t ts [] a m i = tt
others_apart plan t ts (u ∷ us) a m i = (
  elim (Bool-cases (str_eq (file_of plan u) (file_of plan t))) [
    | inr e ↦ e
    | inl e ↦
        let same =
          a.apart u t (ground (arith, i u.id, eq_refl u.id)) (ground (arith, eq_refl t.id))
            ((eq_iff (file_of plan u) (file_of plan t)).0 e) in
        absurd (ground (arith, m, eq_iff t.id u.id, same))
  ],
  others_apart plan t ts us a (ground (arith, m)) (λ k n. i k (ground (arith, n))),
)

-- Every subtask of a list of different ones is the last of its file.
pub last_in-own :
    (plan : Plan) (ts : List Subtask)
    → distinct (ids ts) ≡ true
    → IsApart plan ts
    → All (λ t. last_in plan (file_of plan t) ts ≡ some t) ts
last_in-own plan [] d a = tt
last_in-own plan (t ∷ ts) d a =
    let tail : IsApart plan ts = record {
      apart = λ u v m n e. a.apart u v (ground (arith, m)) (ground (arith, n)) e;
    } in
    (
      rw
          (
            last_in-none plan (file_of plan t) ts
                (others_apart plan t ts ts a (ground (arith, d)) (λ k m. m)),
            eq_refl (file_of plan t),
          )
          refl,
      later (file_of plan t) t ts ts (last_in-own plan ts (ground (arith, d)) tail),
    )
  where
    later :
        (k : String) (t : Subtask) (ts us : List Subtask)
        → All (λ u. last_in plan (file_of plan u) ts ≡ some u) us
        → All (λ u. last_in plan (file_of plan u) (t ∷ ts) ≡ some u) us
    later k t ts [] b = tt
    later k t ts (u ∷ us) b = (rw b.0 refl, later k t ts us b.1)
