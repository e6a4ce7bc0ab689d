-- ===== src/Dispatch/Queue/Rounds.antt =====
-- watch_and_dispatch with workers that complete what is queued: every poll puts at least the next
-- subtask of the order into the queue, so the loop comes to its end.
use ai_devops.Common.{
  ℕ, zero, suc, ◌<◌, ◌+◌, ◌≤◌, String, true, false, Option, none, some, List, [], ◌∷◌, ◌++◌, map,
  length, length-map, length-append, ◌==◌, ==_iff, ◌≡◌, refl, sym, ap, ◌∙◌, arith, eq_iff, All,
  subst, Bool-cases, inl, inr,
}
use ai_devops.Common.Names.{mem, distinct}
use ai_devops.Common.Assoc.{Assoc, lookup}
use ai_devops.Common.Result.{Result, ok}
use ai_devops.PlanSchema.Graph.{ids, validate_dependencies, topologically_sorted_subtasks}
use ai_devops.PlanSchema.Graph.Counts.{mem-count, count-zero_of_not_mem, length-le_of_count}
use ai_devops.PlanSchema.Graph.Run.{IsTopologicalOrder}
use ai_devops.PlanSchema.Graph.Validate.{validated_sorts, validate_iff}
use ai_devops.PlanSchema.Types.{Plan, Subtask}
use ai_devops.Dispatch.Paths.{Env}
use ai_devops.Dispatch.Scope.{DispatchError, validate_subtask_scope}
use ai_devops.Dispatch.Tasks.{Entry, build_execution_task}
use ai_devops.Dispatch.Queue.{
  Site, Poll, is_queued, load_dispatch_state, poll_dispatch, limit_reached, watch_and_dispatch,
}
use ai_devops.Dispatch.Queue.Files.{file_of}
use ai_devops.Dispatch.Queue.History.{site_at, Written, History, History-next, all-IsFiled}
use ai_devops.Dispatch.Queue.Keys.{IsKept, full_length, length_full}
use ai_devops.Dispatch.Queue.Front.{Front}
use ai_devops.Dispatch.Queue.Turn.{IsResponsive, turn}

module _ (env : Env) (plan : Plan) (observe : ℕ → Site → Poll)
    (responsive : IsResponsive env plan observe)
    (scoped : All (λ t. validate_subtask_scope env plan t ≡ ok tt) plan.subtasks)
    (order : List Subtask) (sorted : topologically_sorted_subtasks plan.subtasks ≡ ok order)
    (unique : distinct (ids plan.subtasks) ≡ true)
    (own_files : distinct (map (file_of plan) plan.subtasks) ≡ true)
    (topological : IsTopologicalOrder plan.subtasks order) where
  -- The loop has returned: as many files as subtasks, every subtask is queued, and every one was
  -- filed by a poll.
  pub record Finished (s : Site) (w : Site × Option (Result DispatchError (List String)))
      : Type 0 where
    pub paths : List String
    pub returned : w.1 ≡ some (ok paths)
    pub as_many : length paths ≡ length plan.subtasks
    pub all_queued :
        (k : String)
        → mem k (ids plan.subtasks) ≡ true
        → is_queued k (load_dispatch_state w.0) ≡ true
    pub polls : ℕ
    pub few : polls ≤ suc (length order)
    pub ended : w.0 ≡ site_at env plan observe s polls
    pub written :
        (k : String) → mem k (ids plan.subtasks) ≡ true → Written env plan observe s polls k

  Front-all :
      (n : ℕ) (ts : List Subtask) (d : Assoc Entry)
      → length ts ≤ n
      → Front n ts d
      → (k : String) → mem k (ids ts) ≡ true
      → is_queued k d ≡ true
  Front-all n [] d l f k m = cc
  Front-all zero (t ∷ ts) d l f k m = absurd (omega (arith, l))
  Front-all (suc n) (t ∷ ts) d l f k m = ground (
    arith,
    m,
    Front-all n ts d (omega (arith, l)) f.1 k,
    f.0,
    eq_iff k t.id,
    ap (λ x. is_queued x d) {x = k} {y = t.id},
  )

  in_order : (k : String) → mem k (ids plan.subtasks) ≡ true → mem k (ids order) ≡ true
  in_order k m = ground (
    arith,
    mem-count k (ids plan.subtasks) m,
    topological.complete k,
    count-zero_of_not_mem k (ids order),
  )

  watch_stops :
      (fuel loops : ℕ) (acc : List String) (s : Site) (paths : List String)
      → (poll_dispatch env plan (observe loops s) s).1 ≡ ok paths
      → (length (load_dispatch_state (poll_dispatch env plan (observe loops s) s).0)
          == length plan.subtasks)
        ≡ true
      → watch_and_dispatch env plan none observe (suc fuel) loops acc s
        ≡ ((poll_dispatch env plan (observe loops s) s).0, some (ok (acc ++ paths)))
  unfolding watch_and_dispatch
  watch_stops fuel loops acc s paths r b = rw (watch_and_dispatch, r, b) refl

  watch_goes_on :
      (fuel loops : ℕ) (acc : List String) (s : Site) (paths : List String)
      → (poll_dispatch env plan (observe loops s) s).1 ≡ ok paths
      → (length (load_dispatch_state (poll_dispatch env plan (observe loops s) s).0)
          == length plan.subtasks)
        ≡ false
      → watch_and_dispatch env plan none observe (suc fuel) loops acc s
        ≡ watch_and_dispatch env plan none observe fuel
            (suc loops)
            (acc ++ paths)
            (poll_dispatch env plan (observe loops s) s).0
  unfolding watch_and_dispatch limit_reached
  watch_goes_on fuel loops acc s paths r b = rw (watch_and_dispatch, r, b) refl

  watch_rounds :
      (s : Site) (fuel n : ℕ) (acc : List String)
      → IsKept plan.subtasks (load_dispatch_state (site_at env plan observe s n))
      → length acc ≡ length (load_dispatch_state (site_at env plan observe s n))
      → Front n order (load_dispatch_state (site_at env plan observe s n))
      → History env plan observe s n
      → n + fuel ≡ suc (length order)
      → n ≤ length order
      → Finished s
          (watch_and_dispatch env plan none observe fuel n acc (site_at env plan observe s n))
  watch_rounds s zero n acc h a f past e l = absurd (omega (arith, e, l))
  watch_rounds s (suc fuel) n acc h a f past e l =
      let here = site_at env plan observe s n in
      let t =
        turn env plan observe responsive scoped order sorted unique own_files topological n here
          h in
      let next = site_at env plan observe s (suc n) in
      let d' = load_dispatch_state next in
      let size : length acc + length t.paths ≡ length d' =
        omega (arith, a, t.grows, length-append acc t.paths) in
      let past' : History env plan observe s (suc n) =
        History-next env plan observe s n t.picked
          (record {
            old = t.before;
            added = t.added;
            drawn = t.found;
            different = t.different;
            apart = t.separate;
            files = t.files;
          })
          past in
      elim (Bool-cases (length d' == length plan.subtasks)) [
        | inl b ↦
            let same = (==_iff (length d') (length plan.subtasks)).0 b in
            let queued = length_full plan.subtasks d' t.kept same in
            subst (Finished s) (sym (watch_stops fuel n acc here t.paths t.ran b)) (record {
              paths = acc ++ t.paths;
              returned = refl;
              as_many = length-append acc t.paths ∙ size ∙ same;
              all_queued = queued;
              polls = suc n;
              few = omega (arith, l);
              ended = refl;
              written = λ k m. past' k (queued k m);
            })
        | inr b ↦
            let full : length order ≤ n → length d' ≡ length plan.subtasks = λ z.
              full_length plan.subtasks d' unique t.kept (λ k m.
                Front-all (suc n) order d' (omega (arith, z)) (t.front n f) k (in_order k m)) in
            let short : suc n ≤ length order = ground (arith, b, full) in
            subst (Finished s) (sym (watch_goes_on fuel n acc here t.paths t.ran b)) (
              watch_rounds s fuel (suc n) (acc ++ t.paths) t.kept (length-append acc t.paths ∙ size)
                (t.front n f) past' (omega (arith, e)) short)
      ]

order-length :
    (subtasks order : List Subtask)
    → IsTopologicalOrder subtasks order
    → length order ≡ length subtasks
order-length subtasks order o = omega (
  arith,
  length-le_of_count (ids order) (ids subtasks) (λ k. omega (arith, o.complete k)),
  length-le_of_count (ids subtasks) (ids order) (λ k. omega (arith, o.complete k)),
  length-map (λ (t : Subtask). t.id) subtasks,
  length-map (λ (t : Subtask). t.id) order,
)

load-fresh : (s : Site) → s.dispatch_state ≡ none → load_dispatch_state s ≡ []
unfolding load_dispatch_state
load-fresh s e = rw (load_dispatch_state, e) refl

IsKept-empty : (subtasks : List Subtask) → IsKept subtasks []
unfolding is_queued lookup
IsKept-empty subtasks = record { counted = λ k. omega arith; listed = λ k. refl }

nothing_queued :
    (s : Site) (k : String)
    → load_dispatch_state s ≡ []
    → is_queued k (load_dispatch_state s) ≡ false
unfolding is_queued lookup
nothing_queued s k e = rw e refl

-- For a valid plan with no dispatch behind it, whose subtasks have accepted scopes and different
-- files, and that waits for no other plan at any poll, and with workers that have completed by each
-- poll what was queued before it, watch_and_dispatch without a limit of loops returns after at most
-- one poll more than there are subtasks. It gives as many paths as there are subtasks, every subtask
-- counts as queued, and for every subtask there is one of the polls made after which the queue holds
-- the subtask's task in its file.
pub watch_finishes :
    (env : Env) (plan : Plan) (observe : ℕ → Site → Poll) (s : Site)
    → validate_dependencies plan.subtasks ≡ ok tt
    → All (λ t. validate_subtask_scope env plan t ≡ ok tt) plan.subtasks
    → distinct (map (file_of plan) plan.subtasks) ≡ true
    → IsResponsive env plan observe
    → s.dispatch_state ≡ none
    → (paths : List String) × ((watch_and_dispatch env plan none observe
          (suc (length plan.subtasks))
          0
          []
          s).1
        ≡ some (ok paths))
      × (length paths ≡ length plan.subtasks)
      × ((k : String)
          → mem k (ids plan.subtasks) ≡ true
          → is_queued k (
              load_dispatch_state
                (watch_and_dispatch env plan none observe (suc (length plan.subtasks)) 0 [] s).0)
            ≡ true)
      × (polls : ℕ) × (polls ≤ suc (length plan.subtasks))
      × ((watch_and_dispatch env plan none observe (suc (length plan.subtasks)) 0 [] s).0
          ≡ site_at env plan observe s polls)
      × All
          (λ t.
            (n : ℕ) × (n < polls)
            × (lookup (file_of plan t) (site_at env plan observe s (suc n)).queue
                ≡ some (build_execution_task env plan t)))
          plan.subtasks
watch_finishes env plan observe s v scoped own_files responsive fresh =
    let (order, sorted, topological) = validated_sorts plan.subtasks v in
    let unique = ((validate_iff plan.subtasks).0 v).0 in
    let empty = load-fresh s fresh in
    let same : length order ≡ length plan.subtasks = order-length plan.subtasks order topological in
    let w =
      watch_rounds env plan observe responsive scoped order sorted unique own_files topological s
        (suc (length plan.subtasks)) 0 []
        (subst (IsKept plan.subtasks) (sym empty) (IsKept-empty plan.subtasks))
        (sym (ap length empty)) tt (λ k q. absurd (cc (q, nothing_queued s k empty)))
        (omega (arith, same)) (omega arith) in
    (
      w.paths,
      w.returned,
      w.as_many,
      w.all_queued,
      w.polls,
      omega (arith, same, w.few),
      w.ended,
      all-IsFiled env plan observe s w.polls unique w.written,
    )
