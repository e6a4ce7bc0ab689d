-- ===== src/Release/Worker/Refines.antt =====
-- The worker of apps/release_worker/service.py against the rollout: whatever is called and whatever
-- raises, a release only makes the rollout's steps.
use ai_devops.Common.{
  suc, String, Bool, false, Option, none, some, List, [], ◌∷◌, ◌≡◌, refl, sym, subst, ◌⊎◌, inl, inr,
  arith, str_eq, if◌then◌else◌, Bool-cases, Option-cases, ltb, ltb→lt,
}
use ai_devops.PlanSchema.Text.{strip, is_empty}
use ai_devops.Release.Stages.{RollbackDecision, within, breach, evaluate}
use ai_devops.Release.Stages.Order.{Lowers, next_stage-unknown}
use ai_devops.Release.Store.{Release}
use ai_devops.Release.Worker.{
  Worker, Audit, Faults, Env, Event, TaskStatus, SystemEvent, task_status, system, read_release,
  advance, advanced, begun, rolled_back, is_final, handle_event, handle_task_status,
  handle_system_event, publish_stage, publish_alert, work_item_of, or_empty,
}
use ai_devops.Release.Worker.Reads.{IsValid, read-Belongs}
use ai_devops.Release.Worker.Steps.{
  Outcome, change-Outcome, publish_stage-Quiet, publish_alert-Quiet,
}
use ai_devops.Release.Worker.Rollout.{
  Phase, Step, Reach, Shows, Abstracts, final_of, advanced-Shows, advanced-Shows_last,
}

module _ (later : String → String → Bool) where
  -- Every work item's phase in `w'` is reached from its phase in `w`.
  pub record Refines (w w' : Worker) : Type 0 where
    pub valid : IsValid w'
    pub follows :
        (k : String) (p : Option Phase)
        → Abstracts (read_release later k w) p
        → (q : Option Phase) × Reach p q × Abstracts (read_release later k w') q

  pub Refines-refl : (w : Worker) → IsValid w → Refines w w
  Refines-refl w v = record { valid = v; follows = λ k p a. (p, Reach.here, a) }

  Reach-trans : {p q r : Option Phase} → Reach p q → Reach q r → Reach p r
  Reach-trans a Reach.here = a
  Reach-trans a (Reach.later b s) = Reach.later (Reach-trans a b) s

  pub Refines-trans : (w w1 w2 : Worker) → Refines w w1 → Refines w1 w2 → Refines w w2
  Refines-trans w w1 w2 a b = record {
    valid = b.valid;
    follows = λ k p s.
        let (q, r, t) = a.follows k p s in
        let (q', r', t') = b.follows k q t in (q', Reach-trans r r', t');
  }

  -- A change whose new release is one step on.
  Outcome-Refines :
      (wid : String) (updated : Release) (w w' : Worker)
      → Outcome later wid updated w w'
      → ((p : Option Phase)
          → Abstracts (read_release later wid w) p
          → (q : Option Phase) × Step p q × Abstracts (some updated) q)
      → Refines w w'
  Outcome-Refines wid updated w w' o on = record {
    valid = o.valid;
    follows = λ k p a. elim (o.reads k) [
      | inl e ↦ (p, Reach.here, subst (λ x. Abstracts x p) (sym e) a)
      | inr (f, e) ↦
          let (q, s, t) = on p (subst (λ x. Abstracts (read_release later x w) p) (sym f) a) in
          (q, Reach.later Reach.here s, subst (λ x. Abstracts x q) (sym e) t)
    ];
  }

Shows-advanced :
    (lower : String → String) (r : Release) (p : Option Phase)
    → Lowers lower
    → is_final r ≡ false
    → Abstracts (some r) p
    → (q : Option Phase) × Step p q × Abstracts (some (advanced lower r)) q
unfolding is_final
Shows-advanced lower r none l f a = absurd a
Shows-advanced lower r (some (Phase.rolling n)) l f a = elim (Bool-cases (ltb n 4)) [
  | inl e ↦
      let h = ltb→lt n 4 e in
      (some (Phase.rolling (suc n)), Step.next n h, advanced-Shows lower r n l h a)
  | inr e ↦
      let last : n ≡ 4 = ground (arith, e, a.0) in
      (
        some Phase.succeeded,
        subst (λ m. Step (some (Phase.rolling m)) (some Phase.succeeded)) (sym last) Step.finish,
        advanced-Shows_last lower r l (subst (λ m. Shows r (Phase.rolling m)) last a),
      )
]
Shows-advanced lower r (some Phase.succeeded) l f (s, t) =
    absurd (ground (arith, final_of r "succeeded" t refl, f))
Shows-advanced lower r (some Phase.revoked) l f t =
    absurd (ground (arith, final_of r "rolled_back" t refl, f))

begun-Shows :
    (lower : String → String) (wid : String) (p : Option Phase)
    → Lowers lower
    → Abstracts none p
    → (q : Option Phase) × Step p q × Abstracts (some (begun lower wid)) q
unfolding begun
begun-Shows lower wid none l a =
    (some (Phase.rolling 0), Step.begin, (omega arith, next_stage-unknown lower l, refl))
begun-Shows lower wid (some p) l a = absurd a

Shows-rolled_back :
    (reason : String) (r : Release) (p : Option Phase)
    → Abstracts (some r) p
    → (q : Option Phase) × Step p q × Abstracts (some (rolled_back reason r)) q
unfolding rolled_back
Shows-rolled_back reason r none a = absurd a
Shows-rolled_back reason r (some p) a = (some Phase.revoked, Step.revoke p, refl)

Decision-cases :
    {N : Type 0} (d : RollbackDecision N)
    → (d ≡ within) ⊎ ((m : String) × (a : N) × (b : N) × (d ≡ breach m a b))
Decision-cases within = inl refl
Decision-cases (breach m a b) = inr (m, a, b, refl)

module _ {E N : Type 0} (env : Env N) (lowers : Lowers env.lower) where
  pub advance-Refines :
      (wid : String) (faults : Faults E) (w : Worker)
      → IsValid w
      → Refines env.later w (advance env wid faults w).0
  unfolding advance
  advance-Refines wid faults w v = elim (Option-cases (read_release env.later wid w)) [
    | inl p ↦ rw (p, advance) (Refines-refl env.later w v)
    | inr (r, p) ↦ elim (Bool-cases (is_final r)) [
      | inl f ↦ rw (p, f, advance) (Refines-refl env.later w v)
      | inr f ↦
          let b = read-Belongs env.later wid w r v p in
          let updated = advanced env.lower r in
          let audit : Audit = record {
            entity_id = updated.release_id;
            action =
                if str_eq updated.status "succeeded"
                then "release_succeeded"
                else "release_stage_advanced";
            work_item_id = wid;
            detail = updated.stage;
          } in
          rw (p, f, advance)
            (Outcome-Refines env.later wid updated w _
              (change-Outcome env.later faults wid (some r) updated audit
                (publish_stage faults.on_publish updated.release_id updated.stage) w v p b
                (publish_stage-Quiet faults.on_publish updated.release_id updated.stage))
              (λ q a. Shows-advanced env.lower r q lowers f (subst (λ x. Abstracts x q) p a)))
    ]
  ]

  task_status-Refines :
      (t : TaskStatus) (faults : Faults E) (w : Worker)
      → IsValid w
      → Refines env.later w (handle_task_status env t faults w).0
  unfolding handle_task_status begun
  task_status-Refines t faults w v =
      let same = Refines-refl env.later w v in
      let wid = work_item_of t in
      elim (Bool-cases (str_eq (or_empty t.status) "ready")) [
        | inr e ↦ rw (e, handle_task_status) same
        | inl e ↦ elim (Bool-cases (is_empty wid)) [
          | inl f ↦ rw (e, f, handle_task_status) same
          | inr f ↦ elim (Option-cases (read_release env.later wid w)) [
            | inr (r, p) ↦ rw (e, f, p, handle_task_status) same
            | inl p ↦
                let r = begun env.lower wid in
                let audit : Audit = record {
                  entity_id = r.release_id;
                  action = "release_started";
                  work_item_id = wid;
                  detail = r.stage;
                } in
                rw (e, f, p, handle_task_status)
                  (Outcome-Refines env.later wid r w _
                    (change-Outcome env.later faults wid none r audit
                      (publish_stage faults.on_publish r.release_id r.stage) w v p (refl, refl)
                      (publish_stage-Quiet faults.on_publish r.release_id r.stage))
                    (λ q a. begun-Shows env.lower wid q lowers (subst (λ x. Abstracts x q) p a)))
          ]
        ]
      ]

  system-Refines :
      (t : SystemEvent N) (faults : Faults E) (w : Worker)
      → IsValid w
      → Refines env.later w (handle_system_event env t faults w).0
  unfolding handle_system_event rolled_back
  system-Refines t faults w v =
      let same = Refines-refl env.later w v in
      let wid = strip (or_empty t.work_item_id) in
      elim (Bool-cases (str_eq (or_empty t.type) "guardrail_breach")) [
        | inr e ↦ rw (e, handle_system_event) same
        | inl e ↦ elim (Option-cases (read_release env.later wid w)) [
          | inl p ↦ rw (e, p, handle_system_event) same
          | inr (r, p) ↦ elim (Decision-cases (evaluate env.greater t.guardrails t.thresholds)) [
            | inl d ↦ rw (e, p, d, handle_system_event) same
            | inr (metric, value, threshold, d) ↦
                let b = read-Belongs env.later wid w r v p in
                let reason = env.shown metric value threshold in
                let updated = rolled_back reason r in
                let audit : Audit = record {
                  entity_id = updated.release_id;
                  action = "release_rolled_back";
                  work_item_id = wid;
                  detail = reason;
                } in
                rw (e, p, d, handle_system_event)
                  (Outcome-Refines env.later wid updated w _
                    (change-Outcome env.later faults wid (some r) updated audit
                      (publish_alert faults.on_publish updated.release_id reason) w v p b
                      (publish_alert-Quiet faults.on_publish updated.release_id reason))
                    (λ q a. Shows-rolled_back reason r q (subst (λ x. Abstracts x q) p a)))
          ]
        ]
      ]

  handle_event-Refines :
      (t : Event N) (faults : Faults E) (w : Worker)
      → IsValid w
      → Refines env.later w (handle_event env t faults w).0
  unfolding handle_event
  handle_event-Refines (task_status t) faults w v = task_status-Refines t faults w v
  handle_event-Refines (system t) faults w v = system-Refines t faults w v

-- A call of the worker, with what raises in it.
pub data Call (E N : Type 0) : Type 0 where
  advances : String → Faults E → Call E N
  receives : Event N → Faults E → Call E N

abbrev pub after : {E N : Type 0} → Env N → Call E N → Worker → Worker
after env (advances wid faults) w = (advance env wid faults w).0
after env (receives t faults) w = (handle_event env t faults w).0

abbrev pub run : {E N : Type 0} → Env N → List (Call E N) → Worker → Worker
run env [] w = w
run env (c ∷ cs) w = run env cs (after env c w)

-- For a worker whose releases stand under their own work items, and a str.lower that leaves the
-- names of the stages as they are: whatever the worker is called with and whatever raises in the
-- calls, the releases still stand so, and the phase that each work item's release shows at the end
-- is reached by steps of the rollout from the phase that it showed at the start.
pub run-Refines :
    {E N : Type 0} (env : Env N) (cs : List (Call E N)) (w : Worker)
    → Lowers env.lower
    → IsValid w
    → Refines env.later w (run env cs w)
run-Refines env [] w l v = Refines-refl env.later w v
run-Refines env (advances wid faults ∷ cs) w l v =
    let one = advance-Refines env l wid faults w v in
    Refines-trans env.later w _ _ one (run-Refines env cs _ l one.valid)
run-Refines env (receives t faults ∷ cs) w l v =
    let one = handle_event-Refines env l t faults w v in
    Refines-trans env.later w _ _ one (run-Refines env cs _ l one.valid)
