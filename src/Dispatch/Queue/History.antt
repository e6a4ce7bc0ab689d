-- ===== src/Dispatch/Queue/History.antt =====
-- What the polls of watch_and_dispatch of orchestrator/bin/dispatch.py have written to the queue.
use ai_devops.Common.{
  ℕ, zero, suc, ◌<◌, ◌≤◌, String, true, Option, some, List, [], ◌∷◌, ◌||◌, ◌≡◌, sym, ap, ◌∙◌, subst,
  str_eq, arith, eq_iff, eq_refl, All, Bool-cases, inl, inr,
}
use ai_devops.Common.Names.{mem, distinct}
use ai_devops.Common.Assoc.{Assoc, lookup}
use ai_devops.PlanSchema.Json.{Fields}
use ai_devops.PlanSchema.Graph.{ids, subtasks_by_id}
use ai_devops.PlanSchema.Graph.Drawn.{subtasks_by_id-own}
use ai_devops.PlanSchema.Types.{Plan, Subtask}
use ai_devops.Dispatch.Paths.{Env}
use ai_devops.Dispatch.Tasks.{build_execution_task}
use ai_devops.Dispatch.Queue.{Site, Poll, is_queued, load_dispatch_state, poll_dispatch}
use ai_devops.Dispatch.Queue.Files.{file_of, held, IsApart, last_in, last_in-own}

-- What is on disk before the poll of this number, with every poll before it having run.
abbrev pub site_at : Env → Plan → (ℕ → Site → Poll) → Site → ℕ → Site
site_at env plan observe s zero = s
site_at env plan observe s (suc n) =
    let before = site_at env plan observe s n in
    (poll_dispatch env plan (observe n before) before).0

-- What is known of a subtask that is in the list by its id.
named_in :
    (P : Subtask → Type 0) (ts : List Subtask) (k : String)
    → All P ts
    → mem k (ids ts) ≡ true
    → (t : Subtask) × (t.id ≡ k) × P t
named_in P [] k a m = absurd (cc m)
named_in P (t ∷ ts) k a m = elim (Bool-cases (str_eq k t.id)) [
  | inl e ↦ (t, sym ((eq_iff k t.id).0 e), a.0)
  | inr e ↦ named_in P ts k a.1 (ground (arith, m, e))
]

All-map2 :
    (P Q R : Subtask → Type 0) (ts : List Subtask)
    → ((t : Subtask) → P t → Q t → R t)
    → All P ts
    → All Q ts
    → All R ts
All-map2 P Q R [] f a b = tt
All-map2 P Q R (t ∷ ts) f a b = (f t a.0 b.0, All-map2 P Q R ts f a.1 b.1)

module _ (env : Env) (plan : Plan) (observe : ℕ → Site → Poll) (s : Site) where
  -- The queue, after the poll of this number, holds the task of the subtask in its file.
  abbrev pub IsFiled : Subtask → ℕ → Type 0
  IsFiled t n =
      lookup (file_of plan t) (site_at env plan observe s (suc n)).queue
      ≡ some (build_execution_task env plan t)

  -- The subtask of this id was filed by a poll before the n-th.
  pub record Written (n : ℕ) (k : String) : Type 0 where
    pub task : Subtask
    pub named : task.id ≡ k
    pub drawn : subtasks_by_id plan.subtasks task.id ≡ some task
    pub poll : ℕ
    pub early : poll < n
    pub filed : IsFiled task poll

  -- Every subtask that counts as queued before the n-th poll was filed by one before it.
  abbrev pub History : ℕ → Type 0
  History n =
      (k : String)
      → is_queued k (load_dispatch_state (site_at env plan observe s n)) ≡ true
      → Written n k

  pub Written-later : (m n : ℕ) (k : String) → m ≤ n → Written m k → Written n k
  Written-later m n k l w = record {
    task = w.task;
    named = w.named;
    drawn = w.drawn;
    poll = w.poll;
    early = omega (arith, w.early, l);
    filed = w.filed;
  }

  -- What the n-th poll does for the subtasks that it selects.
  pub record Files (n : ℕ) (sel : List Subtask) : Type 0 where
    pub old : Assoc Fields
    pub added :
        (k : String)
        → is_queued k (load_dispatch_state (site_at env plan observe s (suc n)))
          ≡ (is_queued k (load_dispatch_state (site_at env plan observe s n)) || mem k (ids sel))
    pub drawn : All (λ t. subtasks_by_id plan.subtasks t.id ≡ some t) sel
    pub different : distinct (ids sel) ≡ true
    pub apart : IsApart plan sel
    pub files :
        (k : String) → lookup k (site_at env plan observe s (suc n)).queue ≡ held env plan sel old k

  IsFiled-own : (n : ℕ) (sel : List Subtask) → Files n sel → All (λ t. IsFiled t n) sel
  IsFiled-own n sel f =
      All-map2 (λ t. last_in plan (file_of plan t) sel ≡ some t)
        (λ t. last_in plan (file_of plan t) sel ≡ some t) (λ t. IsFiled t n) sel
        (λ t e e'. f.files (file_of plan t) ∙ (held-own t e))
        (last_in-own plan sel f.different f.apart) (last_in-own plan sel f.different f.apart)
    where
      held-own :
          (t : Subtask)
          → last_in plan (file_of plan t) sel ≡ some t
          → held env plan sel f.old (file_of plan t) ≡ some (build_execution_task env plan t)
      held-own t e = ground (arith, e)

  pub History-next : (n : ℕ) (sel : List Subtask) → Files n sel → History n → History (suc n)
  History-next n sel f h k q =
      elim (Bool-cases (is_queued k (load_dispatch_state (site_at env plan observe s n)))) [
        | inl e ↦ Written-later n (suc n) k (omega arith) (h k e)
        | inr e ↦
            let m : mem k (ids sel) ≡ true = ground (arith, f.added k, q, e) in
            let both =
              All-map2 (λ t. subtasks_by_id plan.subtasks t.id ≡ some t) (λ t. IsFiled t n)
                (λ t. (subtasks_by_id plan.subtasks t.id ≡ some t) × IsFiled t n) sel
                (λ t a b. (a, b)) f.drawn (IsFiled-own n sel f) in
            let (t, same, known) =
              named_in (λ t. (subtasks_by_id plan.subtasks t.id ≡ some t) × IsFiled t n) sel k both
                m in
            record {
              task = t;
              named = same;
              drawn = known.0;
              poll = n;
              early = omega arith;
              filed = known.1;
            }
      ]

  -- A subtask of the plan whose id was filed was filed itself.
  pub all-IsFiled :
      (n : ℕ)
      → distinct (ids plan.subtasks) ≡ true
      → ((k : String) → mem k (ids plan.subtasks) ≡ true → Written n k)
      → All (λ t. (m : ℕ) × (m < n) × IsFiled t m) plan.subtasks
  all-IsFiled n u w =
      All-map2 (λ t. subtasks_by_id plan.subtasks t.id ≡ some t)
        (λ t. mem t.id (ids plan.subtasks) ≡ true) (λ t. (m : ℕ) × (m < n) × IsFiled t m)
        plan.subtasks
        (λ t own m.
          let x = w t.id m in
          let same : x.task ≡ t =
            some_eq x.task t (sym x.drawn ∙ ap (subtasks_by_id plan.subtasks) x.named ∙ own) in
          (x.poll, x.early, subst (λ v. IsFiled v x.poll) same x.filed))
        (subtasks_by_id-own plan.subtasks u) (listed plan.subtasks plan.subtasks (λ k m. m))
    where
      some_eq : (x y : Subtask) → ◌≡◌ {A = Option Subtask} (some x) (some y) → x ≡ y
      some_eq x y e = ground (arith, e)

      listed :
          (all ts : List Subtask)
          → ((k : String) → mem k (ids ts) ≡ true → mem k (ids all) ≡ true)
          → All (λ t. mem t.id (ids all) ≡ true) ts
      listed all [] i = tt
      listed all (t ∷ ts) i =
          (i t.id (ground (arith, eq_refl t.id)), listed all ts (λ k m. i k (ground (arith, m))))
