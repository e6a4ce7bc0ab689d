-- ===== src/Dispatch/Queue/Again.antt =====
-- A second dispatch behind a first, with the same task table.
use ai_devops.Common.{
  String, Bool, true, some, ◌||◌, sym, subst, List, [], ◌∷◌, ◌≡◌, refl, ap, ◌∙◌, arith, eq_refl,
  inl, inr, Bool-cases,
}
use ai_devops.Common.Names.{mem, distinct}
use ai_devops.Common.Assoc.{Assoc}
use ai_devops.Common.Result.{Result, ok}
use ai_devops.PlanSchema.Graph.{ids, validate_dependencies, topologically_sorted_subtasks}
use ai_devops.PlanSchema.Graph.Validate.{validated_sorts, validate_iff}
use ai_devops.PlanSchema.Types.{Plan, Subtask}
use ai_devops.Dispatch.Paths.{Env}
use ai_devops.Dispatch.Scope.{DispatchError}
use ai_devops.Dispatch.Registry.{TaskItem, ready_subtask_ids, can_dispatch}
use ai_devops.Dispatch.Tasks.{Entry}
use ai_devops.Dispatch.Queue.{
  Site, Outside, is_queued, all_in, load_dispatch_state, finish, dispatch_now,
  dispatch_ready_subtasks,
}
use ai_devops.Dispatch.Queue.Select.{is_due, selected, queue_until}
use ai_devops.Dispatch.Queue.Outcome.{
  add_all, add_all-queued, order-distinct, dispatch_now-sorted, sorted-Ends, ready-now,
  ready-blocked,
}

-- What is due is queued in the later state, and so is what was queued before.
pub record Takes (completed : List String) (d d' : Assoc Entry) (ts : List Subtask) : Type 0 where
  pub kept : (k : String) → is_queued k d ≡ true → is_queued k d' ≡ true
  pub taken : (k : String) → mem k (ids (selected completed d ts)) ≡ true → is_queued k d' ≡ true

-- A due subtask at the head is selected, and the rest is a selection of its own.
pub Takes-head :
    (completed : List String) (d d' : Assoc Entry) (t : Subtask) (ts : List Subtask)
    → Takes completed d d' (t ∷ ts)
    → all_in completed t.depends_on ≡ true
    → is_queued t.id d' ≡ true
unfolding selected is_due
Takes-head completed d d' t ts h a = elim (Bool-cases (is_queued t.id d)) [
  | inl q ↦ h.kept t.id q
  | inr q ↦ h.taken t.id (rw (selected, is_due, q, a) (ground (arith, eq_refl t.id)))
]

pub Takes-tail :
    (completed : List String) (d d' : Assoc Entry) (t : Subtask) (ts : List Subtask)
    → Takes completed d d' (t ∷ ts)
    → Takes completed d d' ts
unfolding selected
Takes-tail completed d d' t ts h = record {
  kept = h.kept;
  taken = λ k m. h.taken k (elim (Bool-cases (is_due completed d t)) [
    | inl e ↦ rw (selected, e) (ground (arith, m))
    | inr e ↦ rw (selected, e) m
  ]);
}

none_due :
    (completed : List String) (d d' : Assoc Entry) (ts : List Subtask)
    → Takes completed d d' ts
    → selected completed d' ts ≡ []
unfolding selected is_due
none_due completed d d' [] h = refl
none_due completed d d' (t ∷ ts) h =
    let rest = none_due completed d d' ts (Takes-tail completed d d' t ts h) in
    elim (Bool-cases (all_in completed t.depends_on)) [
      | inl a ↦ rw (selected, is_due, Takes-head completed d d' t ts h a) rest
      | inr a ↦ elim (Bool-cases (is_queued t.id d')) [
        | inl q ↦ rw (selected, is_due, q) rest
        | inr q ↦ rw (selected, is_due, q, a) rest
      ]
    ]

pub add_all-Takes :
    (env : Env) (plan : Plan) (outside : Outside) (completed : List String) (d : Assoc Entry)
    (ts : List Subtask)
    → Takes completed d (add_all env plan outside (selected completed d ts) d) ts
add_all-Takes env plan outside completed d ts =
    let sel = selected completed d ts in
    let at = add_all-queued env plan outside sel d in
    record { kept = λ k q. ground (arith, at k, q); taken = λ k m. ground (arith, at k, m) }

pub load-saved :
    (s : Site) (d : Assoc Entry) → s.dispatch_state ≡ some d → load_dispatch_state s ≡ d
unfolding load_dispatch_state
load-saved s d e = rw (load_dispatch_state, e) refl

-- The call gives no files, and leaves the queue, the saved state and the archive.
pub record IsIdle (s : Site) (r : Site × Result DispatchError (List String)) : Type 0 where
  pub paths : r.1 ≡ ok []
  pub queue : r.0.queue ≡ s.queue
  pub state : r.0.dispatch_state ≡ s.dispatch_state
  pub archive : r.0.archive ≡ s.archive

now-IsIdle :
    (env : Env) (plan : Plan) (outside : Outside) (items : List TaskItem) (s : Site)
    (order : List Subtask) (d : Assoc Entry)
    → topologically_sorted_subtasks plan.subtasks ≡ ok order
    → distinct (ids order) ≡ true
    → s.dispatch_state ≡ some d
    → selected (ready_subtask_ids env plan items) (load_dispatch_state s) order ≡ []
    → IsIdle s (dispatch_now env plan outside items s)
unfolding finish queue_until
now-IsIdle env plan outside items s order d e unique saved empty =
    subst (IsIdle s) (sym (dispatch_now-sorted env plan outside items s order e unique)) (
      rw empty (record {
        paths = refl;
        queue = refl;
        state = ap some (load-saved s d saved) ∙ sym saved;
        archive = refl;
      }))

-- After a dispatch of a valid plan that the check of the other plans has not stopped and that has
-- raised nothing, a second one with the same task table, whether or not it skips this check, gives
-- no files and leaves the queue, the saved state and the archive as they are.
pub dispatch_again :
    (env : Env) (plan : Plan) (outside later : Outside) (skip skip' : Bool) (items : List TaskItem)
    (s : Site) (paths : List String)
    → validate_dependencies plan.subtasks ≡ ok tt
    → (skip || (can_dispatch outside.down s.rows plan).0) ≡ true
    → (dispatch_ready_subtasks env plan outside skip items s).1 ≡ ok paths
    → IsIdle (dispatch_ready_subtasks env plan outside skip items s).0 (
        dispatch_ready_subtasks env plan later skip' items
          (dispatch_ready_subtasks env plan outside skip items s).0)
dispatch_again env plan outside later skip skip' items s paths v allowed done =
    let (order, e, o) = validated_sorts plan.subtasks v in
    let unique = order-distinct plan.subtasks order ((validate_iff plan.subtasks).0 v).0 o in
    let completed = ready_subtask_ids env plan items in
    let d = load_dispatch_state s in
    let first = ready-now env plan outside skip items s allowed in
    let s' = (dispatch_ready_subtasks env plan outside skip items s).0 in
    elim (sorted-Ends env plan outside items s order e unique) [
      | inr (x, f, g, r, w) ↦ absurd (cc (first, done, f))
      | inl (p, f, q) ↦
          let d' = add_all env plan outside (selected completed d order) d in
          let saved : s'.dispatch_state ≡ some d' =
            ap (λ (r : Site × Result DispatchError (List String)). r.0.dispatch_state) first
            ∙ q.saved in
          let empty : selected completed (load_dispatch_state s') order ≡ [] =
            ap (λ z. selected completed z order) (load-saved s' d' saved)
            ∙ none_due completed d d' order (add_all-Takes env plan outside completed d order) in
          elim (Bool-cases (skip' || (can_dispatch later.down s'.rows plan).0)) [
            | inr b ↦
                subst (IsIdle s') (sym (ready-blocked env plan later skip' items s' b))
                  (record { paths = refl; queue = refl; state = refl; archive = refl })
            | inl b ↦
                subst (IsIdle s') (sym (ready-now env plan later skip' items s' b))
                  (now-IsIdle env plan later items s' order d' e unique saved empty)
          ]
    ]
