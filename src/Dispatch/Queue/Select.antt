-- ===== src/Dispatch/Queue/Select.antt =====
-- The loop of dispatch_ready_subtasks against a selection that is made before it: the subtasks that
-- are not yet queued and whose dependencies are completed.
use ai_devops.Common.{
  ◌≤◌, String, Bool, true, false, Option, none, some, List, [], ◌∷◌, str_eq, if◌then◌else◌, not,
  ◌&&◌, ◌≡◌, refl, ap, ◌∙◌, arith, eq_refl, Bool-cases, inl, inr,
}
use ai_devops.Common.Names.{mem, count, distinct}
use ai_devops.Common.Assoc.{Assoc, insert, lookup-insert}
use ai_devops.Common.Result.{ok, err}
use ai_devops.PlanSchema.Graph.{ids}
use ai_devops.PlanSchema.Graph.Counts.{mem-count}
use ai_devops.PlanSchema.Types.{Plan, Subtask}
use ai_devops.Dispatch.Paths.{Env}
use ai_devops.Dispatch.Scope.{DispatchError, validate_subtask_scope, Result-cases}
use ai_devops.Dispatch.Tasks.{Entry}
use ai_devops.Dispatch.Queue.{
  Outside, Loop, is_queued, all_in, entry_of, queue_subtask, dispatch_subtask, dispatch_loop,
}

-- not yet queued, with all dependencies completed
unfoldable pub is_due : List String → Assoc Entry → Subtask → Bool
is_due completed dispatched t = not (is_queued t.id dispatched) && all_in completed t.depends_on

unfoldable pub selected : List String → Assoc Entry → List Subtask → List Subtask
unfolding is_due
selected completed dispatched [] = []
selected completed dispatched (t ∷ ts) =
    let rest = selected completed dispatched ts in
    if is_due completed dispatched t then t ∷ rest else rest

pub is_queued-insert :
    (id k : String) (e : Entry) (d : Assoc Entry)
    → is_queued k (insert id e d) ≡ (if str_eq id k then str_eq e.state "queued" else is_queued k d)
unfolding is_queued
is_queued-insert id k e d =
    rw (lookup-insert id k e d, is_queued)
      (elim (Bool-cases (str_eq id k)) [
        | inl f ↦ rw (f, is_queued) refl
        | inr f ↦ rw (f, is_queued) refl
      ])

selected-insert :
    (completed : List String) (id : String) (e : Entry) (d : Assoc Entry) (ts : List Subtask)
    → mem id (ids ts) ≡ false
    → selected completed (insert id e d) ts ≡ selected completed d ts
unfolding selected is_due
selected-insert completed id e d [] m = refl
selected-insert completed id e d (t ∷ ts) m =
    let rest = selected-insert completed id e d ts (ground arith) in
    let f : str_eq id t.id ≡ false = ground arith in
    let same : is_queued t.id (insert id e d) ≡ is_queued t.id d =
      is_queued-insert id t.id e d ∙ (rw f refl) in
    ground (arith, rest, same)

pub distinct-of_count : (xs : List String) → ((c : String) → count c xs ≤ 1) → distinct xs ≡ true
distinct-of_count [] h = refl
distinct-of_count (x ∷ xs) h =
    ground (arith, distinct-of_count xs (λ c. ground (arith, h c)), h x, eq_refl x, mem-count x xs)

module _ (env : Env) (plan : Plan) (outside : Outside) where
  -- The subtasks are queued in order, up to the first whose scope is refused.
  unfoldable pub queue_until : List Subtask → Loop → Loop × Option DispatchError
  queue_until [] l = (l, none)
  queue_until (t ∷ ts) l = elim (validate_subtask_scope env plan t) [
    | err e ↦ (l, some e)
    | ok _ ↦ queue_until ts (queue_subtask env plan outside t l)
  ]

  skip_queued :
      (completed : List String) (t : Subtask) (l : Loop)
      → is_queued t.id l.dispatched ≡ true
      → dispatch_subtask env plan outside completed t l ≡ (l, none)
  unfolding dispatch_subtask
  skip_queued completed t l q = rw (dispatch_subtask, q) refl

  skip_waiting :
      (completed : List String) (t : Subtask) (l : Loop)
      → is_queued t.id l.dispatched ≡ false
      → all_in completed t.depends_on ≡ false
      → dispatch_subtask env plan outside completed t l ≡ (l, none)
  unfolding dispatch_subtask
  skip_waiting completed t l q a = rw (dispatch_subtask, q, a) refl

  turn_refused :
      (completed : List String) (t : Subtask) (l : Loop) (e : DispatchError)
      → is_queued t.id l.dispatched ≡ false
      → all_in completed t.depends_on ≡ true
      → validate_subtask_scope env plan t ≡ err e
      → dispatch_subtask env plan outside completed t l ≡ (l, some e)
  unfolding dispatch_subtask
  turn_refused completed t l e q a v = rw (dispatch_subtask, q, a, v) refl

  turn_accepted :
      (completed : List String) (t : Subtask) (l : Loop)
      → is_queued t.id l.dispatched ≡ false
      → all_in completed t.depends_on ≡ true
      → validate_subtask_scope env plan t ≡ ok tt
      → dispatch_subtask env plan outside completed t l ≡ (queue_subtask env plan outside t l, none)
  unfolding dispatch_subtask
  turn_accepted completed t l q a v = rw (dispatch_subtask, q, a, v) refl

  -- For different ids the loop queues the subtasks that are due before it.
  pub loop-selected :
      (completed : List String) (ts : List Subtask) (l : Loop)
      → distinct (ids ts) ≡ true
      → dispatch_loop env plan outside completed ts l
        ≡ queue_until (selected completed l.dispatched ts) l
  unfolding dispatch_loop queue_until selected is_due queue_subtask
  loop-selected completed [] l u = refl
  loop-selected completed (t ∷ ts) l u =
      let rest = λ (m : Loop). loop-selected completed ts m (ground arith) in
      elim (Bool-cases (is_queued t.id l.dispatched)) [
        | inl q ↦ rw (dispatch_loop, skip_queued completed t l q, selected, is_due, q) (rest l)
        | inr q ↦ elim (Bool-cases (all_in completed t.depends_on)) [
          | inr a ↦
              rw (dispatch_loop, skip_waiting completed t l q a, selected, is_due, q, a) (rest l)
          | inl a ↦ elim (Result-cases (validate_subtask_scope env plan t)) [
            | inr (e, v) ↦
                rw
                  (
                    dispatch_loop,
                    turn_refused completed t l e q a v,
                    selected,
                    is_due,
                    q,
                    a,
                    queue_until,
                    v,
                  )
                  refl
            | inl v ↦
                rw
                  (
                    dispatch_loop,
                    turn_accepted completed t l q a v,
                    selected,
                    is_due,
                    q,
                    a,
                    queue_until,
                    v,
                  )
                  (rest (queue_subtask env plan outside t l)
                    ∙ ap (λ sel. queue_until sel (queue_subtask env plan outside t l))
                        (selected-insert completed t.id (entry_of env plan outside t) l.dispatched
                          ts (ground arith)))
          ]
        ]
      ]
