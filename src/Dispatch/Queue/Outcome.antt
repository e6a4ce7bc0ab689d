-- ===== src/Dispatch/Queue/Outcome.antt =====
-- What one call of dispatch_ready_subtasks leaves: either every subtask that is due is queued and
-- the state is saved, or the scope of one is refused and the state is as before.
use ai_devops.Common.{
  String, Bool, true, false, Bool-cases, subst, Option, none, some, List, [], ◌∷◌, ◌++◌, map, ◌||◌,
  ◌≡◌, refl, sym, ap, ◌∙◌, arith, eq_iff, All, ◌⊎◌, inl, inr, append_assoc, append-nil,
}
use ai_devops.Common.Names.{mem, distinct}
use ai_devops.Common.Assoc.{Assoc, insert, lookup}
use ai_devops.Common.Result.{Result, ok, err}
use ai_devops.PlanSchema.Graph.{ids, validate_dependencies, topologically_sorted_subtasks}
use ai_devops.PlanSchema.Graph.Counts.{count-distinct}
use ai_devops.PlanSchema.Graph.Run.{IsTopologicalOrder}
use ai_devops.PlanSchema.Graph.Validate.{validated_sorts, validate_iff}
use ai_devops.PlanSchema.Types.{Plan, Subtask}
use ai_devops.Dispatch.Paths.{Env}
use ai_devops.Dispatch.Scope.{DispatchError, validate_subtask_scope, Result-cases}
use ai_devops.Dispatch.Registry.{TaskItem, ready_subtask_ids, can_dispatch, register_plan}
use ai_devops.Dispatch.Tasks.{Entry, execution_task_id}
use ai_devops.Dispatch.Queue.{
  Site, Outside, Loop, is_queued, load_dispatch_state, entry_of, queue_subtask, finish,
  dispatch_now, dispatch_ready_subtasks,
}
use ai_devops.Dispatch.Queue.Files.{file_of, held, held-cons}
use ai_devops.Dispatch.Queue.Select.{
  selected, is_queued-insert, distinct-of_count, queue_until, loop-selected,
}

module _ (env : Env) (plan : Plan) (outside : Outside) where
  -- the dispatch state with the subtasks as queued at this time
  unfoldable pub add_all : List Subtask → Assoc Entry → Assoc Entry
  add_all [] d = d
  add_all (t ∷ ts) d = add_all ts (
      insert t.id
        (record {
          state = "queued";
          queued_task_id = execution_task_id plan t;
          queued_at = outside.now;
        })
        d)

  abbrev pub IsAccepted : Subtask → Type 0
  IsAccepted t = validate_subtask_scope env plan t ≡ ok tt

  pub add_all-queued :
      (ts : List Subtask) (d : Assoc Entry) (k : String)
      → is_queued k (add_all ts d) ≡ (is_queued k d || mem k (ids ts))
  unfolding add_all
  add_all-queued [] d k = ground arith
  add_all-queued (t ∷ ts) d k =
      let e = entry_of env plan outside t in
      let rest = add_all-queued ts (insert t.id e d) k in
      let one = is_queued-insert t.id k e d in
      ground (arith, rest, one, eq_iff t.id k, eq_iff k t.id)

  -- The first subtask of the list whose scope is refused, with the exception.
  pub record Refused (ts : List Subtask) (e : DispatchError) : Type 0 where
    pub before : List Subtask
    pub refused : Subtask
    pub behind : List Subtask
    pub splits : ts ≡ before ++ refused ∷ behind
    pub accepted : All IsAccepted before
    pub raised : validate_subtask_scope env plan refused ≡ err e

  pub record Accepted (ts : List Subtask) (l : Loop) (r : Loop × Option DispatchError)
      : Type 0 where
    pub accepted : All IsAccepted ts
    pub clear : r.1 ≡ none
    pub paths : r.0.queued_paths ≡ l.queued_paths ++ map (file_of plan) ts
    pub dispatched : r.0.dispatched ≡ add_all ts l.dispatched
    pub files : (k : String) → lookup k r.0.queue ≡ held env plan ts l.queue k

  pub queue_until_cases :
      (ts : List Subtask) (l : Loop)
      → Accepted ts l (queue_until env plan outside ts l)
        ⊎ ((e : DispatchError) × ((queue_until env plan outside ts l).1 ≡ some e)
            × (refusal : Refused ts e) × ((k : String)
                → lookup k (queue_until env plan outside ts l).0.queue
                  ≡ held env plan refusal.before l.queue k))
  unfolding queue_until queue_subtask add_all
  queue_until_cases [] l = inl (record {
    accepted = tt;
    clear = refl;
    paths = sym (append-nil _);
    dispatched = refl;
    files = λ k. refl;
  })
  queue_until_cases (t ∷ ts) l =
      let next = queue_subtask env plan outside t l in
      elim (Result-cases (validate_subtask_scope env plan t)) [
        | inr (e, v) ↦ inr (
          e,
          rw (queue_until, v) refl,
          record {
            before = [];
            refused = t;
            behind = ts;
            splits = refl;
            accepted = tt;
            raised = v;
          },
          λ k. rw (queue_until, v) refl,
        )
        | inl v ↦ elim (queue_until_cases ts next) [
          | inl a ↦ inl (record {
            accepted = (v, a.accepted);
            clear = rw (queue_until, v) a.clear;
            paths =
                rw (queue_until, v)
                  (a.paths
                    ∙ append_assoc l.queued_paths (file_of plan t ∷ []) (map (file_of plan) ts));
            dispatched = rw (queue_until, v) a.dispatched;
            files = λ k. rw (queue_until, v) (a.files k ∙ held-cons env plan t ts l.queue k);
          })
          | inr (e, f, r, files) ↦ inr (
            e,
            rw (queue_until, v) f,
            record {
              before = t ∷ r.before;
              refused = r.refused;
              behind = r.behind;
              splits = ap (λ xs. t ∷ xs) r.splits;
              accepted = (v, r.accepted);
              raised = r.raised;
            },
            λ k. rw (queue_until, v) (files k ∙ held-cons env plan t r.before l.queue k),
          )
        ]
      ]

-- A topological order of different subtasks names no subtask twice.
pub order-distinct :
    (subtasks order : List Subtask)
    → distinct (ids subtasks) ≡ true
    → IsTopologicalOrder subtasks order
    → distinct (ids order) ≡ true
order-distinct subtasks order u o =
    distinct-of_count (ids order)
      (λ c. ground (arith, o.complete c, count-distinct c (ids subtasks) u))

module _ (env : Env) (plan : Plan) (outside : Outside) where
  -- Every subtask of the selection was queued: its file is in the result, it counts as queued, and
  -- the queue holds its task.
  pub record Queued (sel : List Subtask) (s s' : Site) (paths : List String) : Type 0 where
    pub accepted : All (IsAccepted env plan outside) sel
    pub paths_are : paths ≡ map (file_of plan) sel
    pub saved : s'.dispatch_state ≡ some (add_all env plan outside sel (load_dispatch_state s))
    pub files : (k : String) → lookup k s'.queue ≡ held env plan sel s.queue k

  abbrev pub start : Site → Loop
  start s = record {
    queue = s.queue;
    archive = s.archive;
    dispatched = load_dispatch_state s;
    queued_paths = [];
  }

  abbrev pub registered : Site → Site
  registered s = record s { rows = register_plan outside.down plan outside.now s.rows }

  pub dispatch_now-sorted :
      (items : List TaskItem) (s : Site) (order : List Subtask)
      → topologically_sorted_subtasks plan.subtasks ≡ ok order
      → distinct (ids order) ≡ true
      → dispatch_now env plan outside items s
        ≡ finish (registered s) (
            queue_until env plan outside
              (selected (ready_subtask_ids env plan items) (load_dispatch_state s) order)
              (start s))
  unfolding dispatch_now
  dispatch_now-sorted items s order e u =
      rw (dispatch_now, e)
        (ap (finish (registered s))
          (loop-selected env plan outside (ready_subtask_ids env plan items) order (start s) u))

  finish-clear :
      (s : Site) (r : Loop × Option DispatchError)
      → r.1 ≡ none
      → ((finish s r).1 ≡ ok r.0.queued_paths)
        × ((finish s r).0.dispatch_state ≡ some r.0.dispatched)
        × ((finish s r).0.queue ≡ r.0.queue)
  unfolding finish
  finish-clear s (l, none) c = (refl, refl, refl)
  finish-clear s (l, some e) c = cc

  finish-raised :
      (s : Site) (r : Loop × Option DispatchError) (e : DispatchError)
      → r.1 ≡ some e
      → ((finish s r).1 ≡ err e)
        × ((finish s r).0.dispatch_state ≡ s.dispatch_state)
        × ((finish s r).0.queue ≡ r.0.queue)
  unfolding finish
  finish-raised s (l, none) e c = cc
  finish-raised s (l, some f) e c = (cc, refl, refl)

  -- The two ways in which a call that selects `sel` can end with `r`.
  abbrev pub Ends : List Subtask → Site → Site × Result DispatchError (List String) → Type 0
  Ends sel s r =
      ((paths : List String) × (r.1 ≡ ok paths) × Queued sel s r.0 paths)
      ⊎ ((e : DispatchError) × (r.1 ≡ err e)
          × (r.0.dispatch_state ≡ s.dispatch_state)
          × (refusal : Refused env plan outside sel e) × ((k : String)
              → lookup k r.0.queue ≡ held env plan refusal.before s.queue k))

  pub sorted-Ends :
      (items : List TaskItem) (s : Site) (order : List Subtask)
      → topologically_sorted_subtasks plan.subtasks ≡ ok order
      → distinct (ids order) ≡ true
      → Ends
          (selected (ready_subtask_ids env plan items) (load_dispatch_state s) order)
          s
          (dispatch_now env plan outside items s)
  sorted-Ends items s order e u =
      let sel = selected (ready_subtask_ids env plan items) (load_dispatch_state s) order in
      let r = queue_until env plan outside sel (start s) in
      subst (Ends sel s) (sym (dispatch_now-sorted items s order e u))
        (elim (queue_until_cases env plan outside sel (start s)) [
          | inl a ↦
              let done = finish-clear (registered s) r a.clear in
              inl (
                r.0.queued_paths,
                done.0,
                record {
                  accepted = a.accepted;
                  paths_are = a.paths;
                  saved = done.1 ∙ ap some a.dispatched;
                  files = λ k. ap (lookup k) done.2 ∙ a.files k;
                },
              )
          | inr (x, f, refusal, files) ↦
              let done = finish-raised (registered s) r x f in
              inr (x, done.0, done.1, refusal, λ k. ap (lookup k) done.2 ∙ files k)
        ])

pub ready-now :
    (env : Env) (plan : Plan) (outside : Outside) (skip : Bool) (items : List TaskItem) (s : Site)
    → (skip || (can_dispatch outside.down s.rows plan).0) ≡ true
    → dispatch_ready_subtasks env plan outside skip items s ≡ dispatch_now env plan outside items s
unfolding dispatch_ready_subtasks
ready-now env plan outside skip items s c = rw (dispatch_ready_subtasks, c) refl

pub ready-blocked :
    (env : Env) (plan : Plan) (outside : Outside) (skip : Bool) (items : List TaskItem) (s : Site)
    → (skip || (can_dispatch outside.down s.rows plan).0) ≡ false
    → dispatch_ready_subtasks env plan outside skip items s ≡ (s, ok [])
unfolding dispatch_ready_subtasks
ready-blocked env plan outside skip items s c = rw (dispatch_ready_subtasks, c) refl

-- A dispatch of a valid plan ends in one of three ways. If the check of the other plans is not
-- skipped and does not pass, it gives no files and changes nothing. Else it either queues exactly
-- the subtasks that are not queued yet and whose dependencies are completed, in the order of the
-- sort, and saves a state that adds them to the old one; or it raises the error of the first of them
-- whose scope is refused, those before it having an accepted one, and the saved state is the old
-- one. In the queue every file of a subtask queued by then holds its task, the last one's where
-- several have the same file, and every other file is as before.
pub dispatch_outcome :
    (env : Env) (plan : Plan) (outside : Outside) (skip : Bool) (items : List TaskItem) (s : Site)
    → validate_dependencies plan.subtasks ≡ ok tt
    → (((skip || (can_dispatch outside.down s.rows plan).0) ≡ false)
        × (dispatch_ready_subtasks env plan outside skip items s ≡ (s, ok [])))
      ⊎ (((skip || (can_dispatch outside.down s.rows plan).0) ≡ true)
          × (order : List Subtask) × (topologically_sorted_subtasks plan.subtasks ≡ ok order)
          × IsTopologicalOrder plan.subtasks order
          × Ends env plan outside
              (selected (ready_subtask_ids env plan items) (load_dispatch_state s) order)
              s
              (dispatch_ready_subtasks env plan outside skip items s))
dispatch_outcome env plan outside skip items s v =
    elim (Bool-cases (skip || (can_dispatch outside.down s.rows plan).0)) [
      | inr b ↦ inl (b, ready-blocked env plan outside skip items s b)
      | inl b ↦
          let (order, e, o) = validated_sorts plan.subtasks v in
          let unique = order-distinct plan.subtasks order ((validate_iff plan.subtasks).0 v).0 o in
          let sel = selected (ready_subtask_ids env plan items) (load_dispatch_state s) order in
          inr (
            b,
            order,
            e,
            o,
            subst (Ends env plan outside sel s) (sym (ready-now env plan outside skip items s b))
                (sorted-Ends env plan outside items s order e unique),
          )
    ]
