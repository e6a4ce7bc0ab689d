-- ===== src/Dispatch/Queue/Archived.antt =====
-- The archive of the subtasks that a call of dispatch_ready_subtasks of orchestrator/bin/dispatch.py
-- leaves.
use ai_devops.Common.{
  String, Bool, true, false, Option, none, some, List, [], ◌∷◌, concat, str_eq, ◌||◌, ◌≡◌, ◌⊎◌,
  refl, sym, ap, subst, ◌∙◌, arith, eq_iff, eq_refl, Bool-cases, inl, inr,
}
use ai_devops.Common.Int.{pos}
use ai_devops.Common.Names.{mem}
use ai_devops.Common.Assoc.{Assoc, lookup, lookup-insert}
use ai_devops.Common.Result.{Result, ok}
use ai_devops.PlanSchema.Json.{Value, Fields, end, field, get, str, obj, int}
use ai_devops.PlanSchema.Text.{sanitize_identifier}
use ai_devops.PlanSchema.Graph.{ids, validate_dependencies}
use ai_devops.PlanSchema.Graph.Validate.{validated_sorts, validate_iff}
use ai_devops.PlanSchema.Types.{Plan, Subtask}
use ai_devops.Dispatch.Paths.{Env}
use ai_devops.Dispatch.Scope.{DispatchError, validate_subtask_scope, Result-cases}
use ai_devops.Dispatch.Registry.{TaskItem, ready_subtask_ids, can_dispatch}
use ai_devops.Dispatch.Tasks.{
  execution_task_id, put_field, dispatch_value, archive_payload, update_subtask_archive,
}
use ai_devops.Dispatch.Queue.{
  Site, Outside, Loop, is_queued, load_dispatch_state, entry_of, queue_subtask, finish,
  dispatch_ready_subtasks,
}
use ai_devops.Dispatch.Queue.Select.{selected, queue_until}
use ai_devops.Dispatch.Queue.Outcome.{
  add_all, add_all-queued, order-distinct, start, registered, dispatch_now-sorted, sorted-Ends,
  ready-now,
}
use ai_devops.Dispatch.Queue.Again.{load-saved}
use ai_devops.Dispatch.Queue.Keys.{selected_open}

get-put_field : (key : String) (v : Value) (fields : Fields) → get (put_field key v fields) key ≡ v
unfolding get put_field
get-put_field key v end = rw (eq_refl key) refl
get-put_field key v (field k w rest) = elim (Bool-cases (str_eq k key)) [
  | inl e ↦ rw (put_field, e, get) (rw e refl)
  | inr e ↦ rw (put_field, e, get) (rw e (get-put_field key v rest))
]

module _ (env : Env) (plan : Plan) (outside : Outside) where
  -- The archived object says that the subtask of this id is queued at this time.
  pub record SaysQueued (k : String) (found : Option Fields) : Type 0 where
    pub fields : Fields
    pub stored : found ≡ some fields
    pub says :
        get fields "dispatch"
        ≡ obj (
            field "state" (str "queued") (
              field "queuedTaskId"
                (str (sanitize_identifier (concat plan.plan_id (concat "-" k))))
                (field "queuedAt" (int (pos outside.now)) end)))

  update-SaysQueued :
      (t : Subtask) (archive : Assoc Fields)
      → SaysQueued t.id
          (lookup t.id (update_subtask_archive plan t (entry_of env plan outside t) archive))
  unfolding update_subtask_archive dispatch_value execution_task_id
  update-SaysQueued t archive =
      let e = entry_of env plan outside t in
      let payload : Fields = elim (lookup t.id archive) [
        | none ↦ archive_payload plan t
        | some old ↦ old
      ] in
      let written = put_field "dispatch" (dispatch_value e) payload in
      record {
        fields = written;
        stored = lookup-insert t.id t.id written archive ∙ (rw (eq_refl t.id) refl);
        says = get-put_field "dispatch" (dispatch_value e) payload;
      }

  update-other :
      (t : Subtask) (archive : Assoc Fields) (k : String)
      → str_eq t.id k ≡ false
      → lookup k (update_subtask_archive plan t (entry_of env plan outside t) archive)
        ≡ lookup k archive
  unfolding update_subtask_archive
  update-other t archive k n =
      lookup-insert t.id k
        (put_field "dispatch" (dispatch_value (entry_of env plan outside t))
          (elim (lookup t.id archive) [ none ↦ archive_payload plan t | some old ↦ old ]))
        archive
      ∙ (rw n refl)

  until-other :
      (ts : List Subtask) (l : Loop) (k : String)
      → mem k (ids ts) ≡ false
      → lookup k (queue_until env plan outside ts l).0.archive ≡ lookup k l.archive
  unfolding queue_until queue_subtask
  until-other [] l k m = refl
  until-other (t ∷ ts) l k m =
      let rest = until-other ts (queue_subtask env plan outside t l) k (ground (arith, m)) in
      elim (Result-cases (validate_subtask_scope env plan t)) [
        | inr (e, v) ↦ rw (queue_until, v) refl
        | inl v ↦
            rw (queue_until, v)
              (rest ∙ update-other t l.archive k (ground (arith, m, eq_iff t.id k, eq_iff k t.id)))
      ]

  until-SaysQueued :
      (ts : List Subtask) (l : Loop) (k : String)
      → (queue_until env plan outside ts l).1 ≡ none
      → mem k (ids ts) ≡ true
      → SaysQueued k (lookup k (queue_until env plan outside ts l).0.archive)
  unfolding queue_until queue_subtask
  until-SaysQueued [] l k c m = absurd (cc m)
  until-SaysQueued (t ∷ ts) l k c m =
      let next = queue_subtask env plan outside t l in
      elim (Result-cases (validate_subtask_scope env plan t)) [
        | inr (e, v) ↦ absurd (cc (rw (queue_until, v) at c))
        | inl v ↦ elim (Bool-cases (mem k (ids ts))) [
          | inl later ↦
              rw (queue_until, v) (until-SaysQueued ts next k (rw (queue_until, v) at c) later)
          | inr gone ↦
              let same : t.id ≡ k = ground (arith, m, gone, eq_iff k t.id) in
              rw (queue_until, v)
                (subst (SaysQueued k) (sym (until-other ts next k gone)) (
                  subst
                    (λ x. SaysQueued x (
                      lookup x
                        (update_subtask_archive plan t (entry_of env plan outside t) l.archive)))
                    same (update-SaysQueued t l.archive)))
        ]
      ]

  finish-archive :
      (s : Site) (r : Loop × Option DispatchError) (paths : List String)
      → (finish s r).1 ≡ ok paths
      → (r.1 ≡ none) × ((finish s r).0.archive ≡ r.0.archive)
  unfolding finish
  finish-archive s (l, none) paths e = (refl, refl)
  finish-archive s (l, some x) paths e = absurd (cc e)

-- After a dispatch of a valid plan that the check of the other plans has not stopped and that has
-- raised nothing, every id is in one of two cases: whether it counts as queued has not changed, and
-- neither has its archived object; or it counts as queued now and did not before, and its archived
-- object says in "dispatch" that it is queued, with the id of its task and the time of the dispatch.
pub dispatch_archives :
    (env : Env) (plan : Plan) (outside : Outside) (skip : Bool) (items : List TaskItem) (s : Site)
    (paths : List String) (k : String)
    → validate_dependencies plan.subtasks ≡ ok tt
    → (skip || (can_dispatch outside.down s.rows plan).0) ≡ true
    → (dispatch_ready_subtasks env plan outside skip items s).1 ≡ ok paths
    → ((is_queued k (load_dispatch_state (dispatch_ready_subtasks env plan outside skip items s).0)
          ≡ is_queued k (load_dispatch_state s))
        × (lookup k (dispatch_ready_subtasks env plan outside skip items s).0.archive
            ≡ lookup k s.archive))
      ⊎ ((is_queued k (load_dispatch_state s) ≡ false)
          × (is_queued k
                (load_dispatch_state (dispatch_ready_subtasks env plan outside skip items s).0)
              ≡ true)
          × SaysQueued env plan outside k
              (lookup k (dispatch_ready_subtasks env plan outside skip items s).0.archive))
dispatch_archives env plan outside skip items s paths k v allowed done =
    let (order, e, o) = validated_sorts plan.subtasks v in
    let unique = order-distinct plan.subtasks order ((validate_iff plan.subtasks).0 v).0 o in
    let completed = ready_subtask_ids env plan items in
    let d = load_dispatch_state s in
    let sel = selected completed d order in
    let r = queue_until env plan outside sel (start env plan outside s) in
    let first = ready-now env plan outside skip items s allowed in
    let now = dispatch_ready_subtasks env plan outside skip items s in
    let same = first ∙ dispatch_now-sorted env plan outside items s order e unique in
    let (clear, archived) =
      finish-archive env plan outside (registered env plan outside s) r paths
        (ap (λ (x : Site × Result DispatchError (List String)). x.1) (sym same) ∙ done) in
    let kept : now.0.archive ≡ r.0.archive =
      ap (λ (x : Site × Result DispatchError (List String)). x.0.archive) same ∙ archived in
    elim (sorted-Ends env plan outside items s order e unique) [
      | inr (x, f, g, refused, w) ↦ absurd (cc (first, done, f))
      | inl (p, f, q) ↦
          let d' = add_all env plan outside sel d in
          let saved : now.0.dispatch_state ≡ some d' =
            ap (λ (x : Site × Result DispatchError (List String)). x.0.dispatch_state) first
            ∙ q.saved in
          let after : is_queued k (load_dispatch_state now.0) ≡ (is_queued k d || mem k (ids sel)) =
            ap (is_queued k) (load-saved now.0 d' saved)
            ∙ add_all-queued env plan outside sel d k in
          elim (Bool-cases (mem k (ids sel))) [
            | inl m ↦ inr (
              selected_open completed d order k m,
              ground (arith, after, m),
              subst (SaysQueued env plan outside k) (sym (ap (lookup k) kept))
                  (until-SaysQueued env plan outside sel (start env plan outside s) k clear m),
            )
            | inr m ↦ inl (
              ground (arith, after, m),
              ap (lookup k) kept ∙ until-other env plan outside sel (start env plan outside s) k m,
            )
          ]
    ]
