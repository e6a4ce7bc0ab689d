-- ===== src/Dispatch/Queue/Front.antt =====
-- The subtasks of the order that are queued, from its start, and how a dispatch of
-- orchestrator/bin/dispatch.py takes at least one more.
use ai_devops.Common.{
  ℕ, zero, suc, String, true, List, [], ◌∷◌, ◌++◌, take, ◌≡◌, refl, ap, arith, eq_iff, eq_refl, All,
  Bool-cases, inl, inr,
}
use ai_devops.Common.Names.{mem, mem-append}
use ai_devops.Common.Assoc.{Assoc}
use ai_devops.PlanSchema.Graph.{ids}
use ai_devops.PlanSchema.Graph.Loop.{InOrder}
use ai_devops.PlanSchema.Types.{Subtask}
use ai_devops.Dispatch.Tasks.{Entry}
use ai_devops.Dispatch.Queue.{is_queued, all_in}
use ai_devops.Dispatch.Queue.Select.{is_due, selected}
use ai_devops.Dispatch.Queue.Again.{Takes, Takes-head, Takes-tail}

pub selected-All :
    (P : Subtask → Type 0) (completed : List String) (d : Assoc Entry) (ts : List Subtask)
    → All P ts
    → All P (selected completed d ts)
unfolding selected
selected-All P completed d [] a = tt
selected-All P completed d (t ∷ ts) a =
    let rest = selected-All P completed d ts a.1 in
    elim (Bool-cases (is_due completed d t)) [
      | inl e ↦ rw (selected, e) (a.0, rest)
      | inr e ↦ rw (selected, e) rest
    ]

pub not_refused_in :
    (P : Subtask → Type 0) (before : List Subtask) (t : Subtask) (behind : List Subtask)
    → All P (before ++ t ∷ behind)
    → P t
not_refused_in P [] t behind a = a.0
not_refused_in P (u ∷ us) t behind a = not_refused_in P us t behind a.1

-- The subtasks up to the n-th of the order are queued.
abbrev pub Front : ℕ → List Subtask → Assoc Entry → Type 0
Front n order d = All (λ t. is_queued t.id d ≡ true) (take n order)

all_in-queued :
    (completed placed deps : List String) (d : Assoc Entry)
    → All (λ x. mem x placed ≡ true) deps
    → ((k : String) → mem k placed ≡ true → mem k completed ≡ true)
    → all_in completed deps ≡ true
unfolding all_in
all_in-queued completed placed [] d a h = refl
all_in-queued completed placed (x ∷ xs) d a h =
    let rest = all_in-queued completed placed xs d a.1 h in rw (all_in, h x a.0) rest

pub Front-next :
    (completed placed : List String) (d d' : Assoc Entry) (n : ℕ) (ts : List Subtask)
    → Takes completed d d' ts
    → InOrder placed ts
    → ((k : String) → mem k placed ≡ true → mem k completed ≡ true)
    → ((k : String) → mem k (ids ts) ≡ true → is_queued k d ≡ true → mem k completed ≡ true)
    → Front n ts d
    → Front (suc n) ts d'
Front-next completed placed d d' n [] t o h q f = tt
Front-next completed placed d d' zero (u ∷ us) t o h q f =
    (Takes-head completed d d' u us t (all_in-queued completed placed u.depends_on d o.0 h), tt)
Front-next completed placed d d' (suc n) (u ∷ us) t o h q f =
    let own = q u.id (ground (arith, eq_refl u.id)) f.0 in
    (
      Takes-head completed d d' u us t (all_in-queued completed placed u.depends_on d o.0 h),
      Front-next completed (placed ++ u.id ∷ []) d d' n us (Takes-tail completed d d' u us t) o.1
          (λ k m. ground (
            arith,
            m,
            mem-append k placed (u.id ∷ []),
            h k,
            own,
            eq_iff k u.id,
            ap (λ x. mem x completed) {x = k} {y = u.id},
          ))
          (λ k m. q k (ground (arith, m))) f.1,
    )
