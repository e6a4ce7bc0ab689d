-- ===== src/PlanSchema/Graph/Drawn.antt =====
-- What holds of every subtask of a plan holds of those that subtasks_by_id of
-- orchestrator/bin/plan_schema.py gives.
use ai_devops.Common.{
  String, List, [], ◌∷◌, ◌≡◌, some, All, Bool-cases, inl, inr, subst, arith, str_eq, true, false,
  refl, ◌∙◌, eq_iff, eq_refl,
}
use ai_devops.Common.Names.{mem, distinct}
use ai_devops.Common.Dict.{Dict, empty, put}
use ai_devops.PlanSchema.Graph.{ids, fill, subtasks_by_id}
use ai_devops.PlanSchema.Types.{Subtask}

fill-All :
    (P : Subtask → Type 0) (ts : List Subtask) (d : Dict Subtask) (k : String) (t : Subtask)
    → ((j : String) (u : Subtask) → d j ≡ some u → P u)
    → All P ts
    → fill (λ u. u) ts d k ≡ some t
    → P t
unfolding fill
fill-All P [] d k t h a e = h k t e
fill-All P (u ∷ us) d k t h a e =
    fill-All P us (put d u.id u) k t
      (λ j w f. elim (Bool-cases (str_eq u.id j)) [
        | inl g ↦ let same : some u ≡ some w = rw g at f in subst P (ground (arith, same)) a.0
        | inr g ↦ h j w (rw g at f)
      ])
      a.1 e

pub drawn-All :
    (P : Subtask → Type 0) (subtasks order : List Subtask)
    → All P subtasks
    → All (λ t. subtasks_by_id subtasks t.id ≡ some t) order
    → All P order
unfolding subtasks_by_id
drawn-All P subtasks [] a h = tt
drawn-All P subtasks (t ∷ ts) a h =
    (fill-All P subtasks empty t.id t (λ j u e. absurd (cc)) a h.0, drawn-All P subtasks ts a h.1)

fill-absent :
    (ts : List Subtask) (d : Dict Subtask) (k : String)
    → mem k (ids ts) ≡ false
    → fill (λ u. u) ts d k ≡ d k
unfolding fill
fill-absent [] d k m = refl
fill-absent (t ∷ ts) d k m =
    let other : str_eq t.id k ≡ false = ground (arith, m, eq_iff t.id k, eq_iff k t.id) in
    fill-absent ts (put d t.id t) k (ground (arith, m)) ∙ (rw other refl)

fill-own :
    (ts : List Subtask) (d : Dict Subtask)
    → distinct (ids ts) ≡ true
    → All (λ t. fill (λ u. u) ts d t.id ≡ some t) ts
unfolding fill
fill-own [] d u = tt
fill-own (t ∷ ts) d u = (
  fill-absent ts (put d t.id t) t.id (ground (arith, u)) ∙ (rw (eq_refl t.id) refl),
  fill-own ts (put d t.id t) (ground (arith, u)),
)

-- Of different subtasks each is found under its own id.
pub subtasks_by_id-own :
    (subtasks : List Subtask)
    → distinct (ids subtasks) ≡ true
    → All (λ t. subtasks_by_id subtasks t.id ≡ some t) subtasks
unfolding subtasks_by_id
subtasks_by_id-own subtasks u = fill-own subtasks empty u
