-- ===== src/Recovery/Machine/Attempts.antt =====
-- The number of recovery attempts stays within the configured limit, whatever is called.
use ai_devops.Common.{
  ℕ, ◌≤◌, String, Bool, true, false, Option, none, some, List, [], ◌∷◌, ◌≡◌, refl, arith,
  Option-cases, inl, inr,
}
use ai_devops.Common.Assoc.{lookup, insert, lookup-insert}
use ai_devops.PlanSchema.Json.{end}
use ai_devops.Recovery.Seconds.{Seconds}
use ai_devops.Recovery.Data.{RecoveryState, RecoveryConfig, RecoveryContext, fresh_context}
use ai_devops.Recovery.Machine.Steps.{
  get_context_hit, get_context_miss, stored_context-persist, transition_done, transition_refused,
}
use ai_devops.Recovery.Machine.{
  Machine, Callbacks, Readings, stored_context, get_context, or_fresh, enter, refusal,
  can_transition, persist_context, perform, announce, transition, start_detection, start_recovery,
  complete_recovery, fail_recovery, reset,
}

-- No cached context and no stored one has used more than `limit` attempts.
pub record Bounded {F : Type 0} (limit : ℕ) (m : Machine F) : Type 0 where
  pub cached :
      (k : String) (c : RecoveryContext F) → lookup k m.contexts ≡ some c → c.attempts ≤ limit
  pub stored :
      (k : String) (c : RecoveryContext F) → stored_context (m.rows k) ≡ some c → c.attempts ≤ limit

module _ {F : Type 0} (limit : ℕ) where
  insert-Bounded :
      (m : Machine F) (k : String) (c : RecoveryContext F)
      → Bounded limit m
      → c.attempts ≤ limit
      → Bounded limit (record m { contexts = insert k c m.contexts })
  insert-Bounded m k c b h = record {
    cached = λ j d e. ground (arith, lookup-insert k j c m.contexts, b.cached j d, h);
    stored = b.stored;
  }

  loaded :
      (task_id : String) (o : Option (RecoveryContext F))
      → ((c : RecoveryContext F) → o ≡ some c → c.attempts ≤ limit)
      → (or_fresh task_id o).attempts ≤ limit
  unfolding or_fresh
  loaded task_id none h = unfold fresh_context in omega arith
  loaded task_id (some c) h = h c refl

  pub get_context-Bounded :
      (m : Machine F) (task_id : String)
      → Bounded limit m
      → Bounded limit (get_context m task_id).0 × ((get_context m task_id).1.attempts ≤ limit)
  get_context-Bounded m task_id b = elim (Option-cases (lookup task_id m.contexts)) [
    | inl e ↦ rw (get_context_miss m task_id e) (
        let h = loaded task_id (stored_context (m.rows task_id)) (b.stored task_id) in
        (insert-Bounded m task_id (or_fresh task_id (stored_context (m.rows task_id))) b h, h))
    | inr (c, e) ↦ rw (get_context_hit m task_id c e) (b, b.cached task_id c e)
  ]

module _ (S : Seconds) (cfg : RecoveryConfig S.F) where
  open S use {F}

  abbrev limit : ℕ
  limit = cfg.max_recovery_attempts

  persist_context-Bounded :
      (m : Machine F) (c : RecoveryContext F)
      → Bounded limit m
      → c.attempts ≤ limit
      → Bounded limit (persist_context S m c)
  unfolding persist_context
  persist_context-Bounded m c b h = record {
    cached = b.cached;
    stored = λ k d e. ground (arith, b.stored k d, stored_context-persist S m c k, h);
  }

  -- A transition that is not refused leaves room for the attempt that it may count.
  enter-Bounded :
      (c : RecoveryContext F) (new : RecoveryState) (error : Option String) (now : Readings F)
      → c.attempts ≤ limit
      → refusal S cfg c new now.at_check ≡ none
      → (enter S c new error now).attempts ≤ limit
  unfolding enter refusal
  enter-Bounded c RecoveryState.recovering error now h e = ground arith
  enter-Bounded c RecoveryState.detecting error now h e = h
  enter-Bounded c RecoveryState.recovered error now h e = h
  enter-Bounded c RecoveryState.failed error now h e = h

  perform-Bounded :
      (hooks : Callbacks) (m : Machine F) (task_id : String) (c : RecoveryContext F)
      (new : RecoveryState) (error : Option String) (now : Readings F)
      → Bounded limit m
      → (enter S c new error now).attempts ≤ limit
      → Bounded limit (perform S hooks m task_id c new error now)
  unfolding perform
  perform-Bounded hooks m task_id c new error now b h =
      let c' = enter S c new error now in
      let b' =
        persist_context-Bounded
          (record m {
            contexts = insert task_id c' m.contexts;
            trace = announce S hooks task_id c' error new m.trace;
          })
          c'
          (record {
            cached =
                λ j d e. ground (arith, lookup-insert task_id j c' m.contexts, b.cached j d, h);
            stored = b.stored;
          })
          h in
      record { cached = b'.cached; stored = b'.stored }

  pub transition-Bounded :
      (hooks : Callbacks) (m : Machine F) (task_id : String) (new : RecoveryState)
      (error : Option String) (now : Readings F)
      → Bounded limit m
      → Bounded limit (transition S cfg hooks m task_id new error now).0
  transition-Bounded hooks m task_id new error now b =
      let (b', h) = get_context-Bounded limit m task_id b in
      elim (Option-cases (refusal S cfg (get_context m task_id).1 new now.at_check)) [
        | inl e ↦ rw (transition_done S cfg hooks m task_id new error now e) (
            let h' = enter-Bounded (get_context m task_id).1 new error now h e in
            perform-Bounded hooks (get_context m task_id).0 task_id (get_context m task_id).1 new
              error now b' h')
        | inr (why, e) ↦ rw (transition_refused S cfg hooks m task_id new error now e) b'
      ]

  start_detection-Bounded :
      (m : Machine F) (task_id : String) (now : F)
      → Bounded limit m
      → Bounded limit (start_detection S m task_id now).0
  unfolding start_detection
  start_detection-Bounded m task_id now b =
      let (b', h) = get_context-Bounded limit m task_id b in
      let c : RecoveryContext F = record (get_context m task_id).1 { started_at = some now } in
      go (get_context m task_id).1.state b' (
        persist_context-Bounded
          (record (get_context m task_id).0 {
            contexts = insert task_id c (get_context m task_id).0.contexts;
          })
          c (insert-Bounded limit (get_context m task_id).0 task_id c b' h) h)
    where
      go :
          (s : RecoveryState) {m₁ m₂ : Machine F}
          → Bounded limit m₁
          → Bounded limit m₂
          → Bounded limit
              (elim s as (λ x. Machine F × Bool) [
                | RecoveryState.detecting ↦ (m₂, true)
                | _ ↦ (m₁, false)
              ]).0
      go RecoveryState.detecting p q = q
      go _ p q = p

  start_recovery-Bounded :
      (hooks : Callbacks) (m : Machine F) (task_id : String) (now : F) (again : Readings F)
      → Bounded limit m
      → Bounded limit (start_recovery S cfg hooks m task_id now again).0
  unfolding start_recovery can_transition
  start_recovery-Bounded hooks m task_id now again b =
      let (b', h) = get_context-Bounded limit m task_id b in
      elim (Option-cases (refusal S cfg (get_context m task_id).1 RecoveryState.recovering now)) [
        | inl e ↦
            rw (e, start_recovery)
              (transition-Bounded hooks (get_context m task_id).0 task_id RecoveryState.recovering
                none again b')
        | inr (why, e) ↦ rw (e, start_recovery) b'
      ]

  reset-Bounded :
      (m : Machine F) (task_id : String) → Bounded limit m → Bounded limit (reset S m task_id)
  unfolding reset
  reset-Bounded m task_id b = elim (Option-cases (lookup task_id m.contexts)) [
    | inl e ↦ rw (e, reset) b
    | inr (c, e) ↦
        rw (e, reset)
          (let c' : RecoveryContext F = record c {
            state = RecoveryState.detecting;
            attempts = 0;
            started_at = none;
            last_attempt_at = none;
            last_error = none;
            recovery_metadata = end;
          } in
            persist_context-Bounded (record m { contexts = insert task_id c' m.contexts }) c'
              (insert-Bounded limit m task_id c' b (omega arith)) (omega arith))
  ]

-- The calls of the machine's methods, with their arguments and the readings of the clock.
pub data Call (F : Type 0) : Type 0 where
  query : String → Call F
  move : String → RecoveryState → Option String → Readings F → Call F
  detect : String → F → Call F
  recover : String → F → Readings F → Call F
  complete : String → Readings F → Call F
  fail : String → String → Readings F → Call F
  restart : String → Call F

module _ (S : Seconds) (cfg : RecoveryConfig S.F) (hooks : Callbacks) where
  open S use {F}

  unfoldable pub run_call : Machine F → Call F → Machine F
  run_call m (query k) = (get_context m k).0
  run_call m (move k new error now) = (transition S cfg hooks m k new error now).0
  run_call m (detect k now) = (start_detection S m k now).0
  run_call m (recover k now again) = (start_recovery S cfg hooks m k now again).0
  run_call m (complete k now) = (complete_recovery S cfg hooks m k now).0
  run_call m (fail k error now) = (fail_recovery S cfg hooks m k error now).0
  run_call m (restart k) = reset S m k

  unfoldable pub run_calls : Machine F → List (Call F) → Machine F
  run_calls m [] = m
  run_calls m (c ∷ cs) = run_calls (run_call m c) cs

  run_call-Bounded :
      (m : Machine F) (c : Call F)
      → Bounded cfg.max_recovery_attempts m
      → Bounded cfg.max_recovery_attempts (run_call m c)
  unfolding run_call complete_recovery fail_recovery
  run_call-Bounded m (query k) b = (get_context-Bounded cfg.max_recovery_attempts m k b).0
  run_call-Bounded m (move k new error now) b = transition-Bounded S cfg hooks m k new error now b
  run_call-Bounded m (detect k now) b = start_detection-Bounded S cfg m k now b
  run_call-Bounded m (recover k now again) b = start_recovery-Bounded S cfg hooks m k now again b
  run_call-Bounded m (complete k now) b =
      transition-Bounded S cfg hooks m k RecoveryState.recovered none now b
  run_call-Bounded m (fail k error now) b =
      transition-Bounded S cfg hooks m k RecoveryState.failed (some error) now b
  run_call-Bounded m (restart k) b = reset-Bounded S cfg m k b

  -- If no cached and no stored context has used more attempts than the configuration allows, then
  -- none has after any sequence of calls.
  pub run_calls-Bounded :
      (m : Machine F) (calls : List (Call F))
      → Bounded cfg.max_recovery_attempts m
      → Bounded cfg.max_recovery_attempts (run_calls m calls)
  unfolding run_calls
  run_calls-Bounded m [] b = b
  run_calls-Bounded m (c ∷ cs) b = run_calls-Bounded (run_call m c) cs (run_call-Bounded m c b)
