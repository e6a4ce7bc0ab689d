-- ===== src/Dispatch/Queue/Turn.antt =====
-- One poll of watch_and_dispatch of orchestrator/bin/dispatch.py, with workers that complete what is
-- queued.
use ai_devops.Common.{
  ℕ, suc, ◌+◌, String, true, some, List, [], map, ◌||◌, length, length-map, length-append, ◌≡◌,
  refl, sym, ap, ◌∙◌, arith, All, subst, inl, inr,
}
use ai_devops.Common.Names.{mem, distinct}
use ai_devops.PlanSchema.Json.{Fields}
use ai_devops.Common.Assoc.{Assoc, lookup}
use ai_devops.Common.Result.{Result, ok}
use ai_devops.PlanSchema.Graph.{ids, topologically_sorted_subtasks, subtasks_by_id}
use ai_devops.PlanSchema.Graph.Counts.{mem-count, count-distinct, count-zero_of_not_mem}
use ai_devops.PlanSchema.Graph.Drawn.{drawn-All}
use ai_devops.PlanSchema.Graph.Run.{IsTopologicalOrder}
use ai_devops.PlanSchema.Types.{Plan, Subtask}
use ai_devops.Dispatch.Paths.{Env}
use ai_devops.Dispatch.Scope.{DispatchError, validate_subtask_scope}
use ai_devops.Dispatch.Registry.{ready_subtask_ids, can_dispatch}
use ai_devops.Dispatch.Tasks.{Entry}
use ai_devops.Dispatch.Queue.{
  Site, Outside, Poll, is_queued, load_dispatch_state, dispatch_now, dispatch_ready_subtasks,
  poll_dispatch,
}
use ai_devops.Dispatch.Queue.Select.{selected, distinct-of_count}
use ai_devops.Dispatch.Queue.Files.{file_of, held, IsApart, distinct-IsApart}
use ai_devops.Dispatch.Queue.Outcome.{add_all, add_all-queued, Refused, order-distinct, sorted-Ends}
use ai_devops.Dispatch.Queue.Again.{add_all-Takes, load-saved}
use ai_devops.Dispatch.Queue.Keys.{IsKept, keys, keys_grow, selected-count}
use ai_devops.Dispatch.Queue.Front.{selected-All, not_refused_in, Front, Front-next}

-- At every poll the plan may be dispatched, and the queued subtasks are completed in the task table.
pub record IsResponsive (env : Env) (plan : Plan) (observe : ℕ → Site → Poll) : Type 0 where
  pub allowed :
      (n : ℕ) (s : Site)
      → (can_dispatch (observe n s).outside.down (observe n s).rows plan).0 ≡ true
  pub completes :
      (n : ℕ) (s : Site) (k : String)
      → mem k (ids plan.subtasks) ≡ true
      → is_queued k (load_dispatch_state s) ≡ true
      → mem k (ready_subtask_ids env plan (observe n s).items) ≡ true

poll-now :
    (env : Env) (plan : Plan) (poll : Poll) (s : Site)
    → (can_dispatch poll.outside.down poll.rows plan).0 ≡ true
    → poll_dispatch env plan poll s
      ≡ dispatch_now env plan poll.outside poll.items
          (record s { queue = poll.queue; rows = poll.rows })
unfolding poll_dispatch dispatch_ready_subtasks
poll-now env plan poll s c = rw (poll_dispatch, dispatch_ready_subtasks, c) refl

module _ (env : Env) (plan : Plan) (observe : ℕ → Site → Poll)
    (responsive : IsResponsive env plan observe)
    (scoped : All (λ t. validate_subtask_scope env plan t ≡ ok tt) plan.subtasks)
    (order : List Subtask) (sorted : topologically_sorted_subtasks plan.subtasks ≡ ok order)
    (unique : distinct (ids plan.subtasks) ≡ true)
    (own_files : distinct (map (file_of plan) plan.subtasks) ≡ true)
    (topological : IsTopologicalOrder plan.subtasks order) where
  -- what one poll does, if its dispatch gives `r`
  pub record Turn (s : Site) (r : Site × Result DispatchError (List String)) : Type 0 where
    pub paths : List String
    pub ran : r.1 ≡ ok paths
    pub kept : IsKept plan.subtasks (load_dispatch_state r.0)
    pub grows : length (load_dispatch_state r.0) ≡ length (load_dispatch_state s) + length paths
    pub front :
        (m : ℕ)
        → Front m order (load_dispatch_state s)
        → Front (suc m) order (load_dispatch_state r.0)
    pub picked : List Subtask
    pub before : Assoc Fields
    pub added :
        (k : String)
        → is_queued k (load_dispatch_state r.0)
          ≡ (is_queued k (load_dispatch_state s) || mem k (ids picked))
    pub found : All (λ t. subtasks_by_id plan.subtasks t.id ≡ some t) picked
    pub different : distinct (ids picked) ≡ true
    pub separate : IsApart plan picked
    pub files : (k : String) → lookup k r.0.queue ≡ held env plan picked before k

  in_plan : (k : String) → mem k (ids order) ≡ true → mem k (ids plan.subtasks) ≡ true
  in_plan k m = ground (
    arith,
    mem-count k (ids order) m,
    topological.complete k,
    count-zero_of_not_mem k (ids plan.subtasks),
  )

  selected-distinct :
      (completed : List String) (d : Assoc Entry)
      → distinct (ids (selected completed d order)) ≡ true
  selected-distinct completed d = distinct-of_count (ids (selected completed d order)) (λ k.
      ground (
        arith,
        selected-count completed d order k,
        topological.complete k,
        count-distinct k (ids plan.subtasks) unique,
      ))

  selected-IsApart :
      (completed : List String) (d : Assoc Entry) → IsApart plan (selected completed d order)
  selected-IsApart completed d =
      distinct-IsApart plan plan.subtasks (selected completed d order) own_files (λ k m. in_plan k (
        ground (
          arith,
          m,
          mem-count k (ids (selected completed d order)),
          selected-count completed d order k,
          count-zero_of_not_mem k (ids order),
        )))

  not-Refused :
      (outside : Outside) (completed : List String) (d : Assoc Entry) (e : DispatchError)
      → Refused env plan outside (selected completed d order) e
      → ⊥
  not-Refused outside completed d e r =
      let P = λ (t : Subtask). validate_subtask_scope env plan t ≡ ok tt in
      let all =
        selected-All P completed d order
          (drawn-All P plan.subtasks order scoped topological.drawn) in
      let one = not_refused_in P r.before r.refused r.behind (subst (All P) r.splits all) in
      absurd (cc (one, r.raised))

  pub turn :
      (n : ℕ) (s : Site)
      → IsKept plan.subtasks (load_dispatch_state s)
      → Turn s (poll_dispatch env plan (observe n s) s)
  unfolding load_dispatch_state
  turn n s h =
      let poll = observe n s in
      let outside = poll.outside in
      let s0 : Site = record s { queue = poll.queue; rows = poll.rows } in
      let completed = ready_subtask_ids env plan poll.items in
      let d = load_dispatch_state s in
      let sel = selected completed d order in
      let ends =
        sorted-Ends env plan outside poll.items s0 order sorted
          (order-distinct plan.subtasks order unique topological) in
      elim ends [
        | inr (e, f, g, r, w) ↦ absurd (not-Refused outside completed d e r)
        | inl (paths, f, q) ↦
            let d' = add_all env plan outside sel d in
            let r = dispatch_now env plan outside poll.items s0 in
            let loaded : load_dispatch_state r.0 ≡ d' = load-saved r.0 d' q.saved in
            let grown =
              keys_grow env plan outside completed plan.subtasks order d unique topological.complete
                h in
            let takes = add_all-Takes env plan outside completed d order in
            subst (Turn s) (sym (poll-now env plan poll s (responsive.allowed n s))) (record {
              paths = paths;
              ran = f;
              kept = subst (IsKept plan.subtasks) (sym loaded) grown.1;
              grows = omega (
                arith,
                ap length loaded,
                ap length grown.0,
                ap length q.paths_are,
                length-append (keys d) (ids sel),
                length-map (λ (x : String × Entry). x.0) d,
                length-map (λ (x : String × Entry). x.0) d',
                length-map (λ (t : Subtask). t.id) sel,
                length-map (file_of plan) sel,
              );
              front = λ m a. subst (Front (suc m) order) (sym loaded) (
                  Front-next completed [] d d' m order takes topological.in_order
                    (λ k b. absurd (cc)) (λ k b. responsive.completes n s k (in_plan k b)) a);
              picked = sel;
              before = poll.queue;
              added = λ k. ap (is_queued k) loaded ∙ add_all-queued env plan outside sel d k;
              found =
                  selected-All (λ t. subtasks_by_id plan.subtasks t.id ≡ some t) completed d order
                    topological.drawn;
              different = selected-distinct completed d;
              separate = selected-IsApart completed d;
              files = q.files;
            })
      ]
