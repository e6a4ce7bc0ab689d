-- ===== src/Recovery/Machine/Persistence.antt =====
-- What a transition writes to the task's row is what a new machine reads.
use ai_devops.Common.{
  String, eq_iff, eq_refl, ap, sym, ◌∙◌, true, Option, some, [], ◌≡◌, arith, Option-cases, inl, inr,
}
use ai_devops.Common.Assoc.{lookup, insert, lookup-insert}
use ai_devops.Common.Dict.{Dict}
use ai_devops.Recovery.Seconds.{Seconds}
use ai_devops.Recovery.Data.{RecoveryState, RecoveryConfig, RecoveryContext, from_dict-to_dict}
use ai_devops.Recovery.Machine.Steps.{
  transition_done, transition_refused, get_context-rows, enter-task_id,
}
use ai_devops.Recovery.Machine.{
  Machine, TaskRow, Callbacks, Readings, stored_context, or_fresh, get_context, enter, refusal,
  persist_context, perform, announce, transition,
}

-- The machine after a restart of the process: the cache is empty, the rows are kept.
abbrev pub restarted : {F : Type 0} → Machine F → Machine F
restarted m = record { contexts = []; rows = m.rows; trace = [] }

module _ (S : Seconds) (cfg : RecoveryConfig S.F) (hooks : Callbacks) where
  open S use {F}

  written :
      (m : Machine F) (c : RecoveryContext F) (k : String) (row : TaskRow F)
      → c.task_id ≡ k
      → m.rows k ≡ some row
      → stored_context ((persist_context S m c).rows k) ≡ some c
  unfolding stored_context persist_context
  written m c k row i e = ground (arith, e, eq_iff c.task_id k, from_dict-to_dict c)

  reload :
      (m : Machine F) (c : RecoveryContext F) (k : String) (row : TaskRow F)
      → c.task_id ≡ k
      → m.rows k ≡ some row
      → (get_context (restarted (persist_context S m c)) k).1 ≡ c
  unfolding get_context lookup or_fresh
  reload m c k row i e = rw (written m c k row i e)

  kept :
      (m : Machine F) (c : RecoveryContext F) (k : String)
      → lookup k m.contexts ≡ some c
      → lookup k (persist_context S m c).contexts ≡ some c
  unfolding persist_context
  kept m c k h = h

  -- After a transition that succeeds, of a task that has a row and whose context carries its own
  -- id, a machine started anew reads from the row the very context that was cached.
  pub transition_reloads :
      (m : Machine F) (task_id : String) (new : RecoveryState) (error : Option String)
      (now : Readings F) (row : TaskRow F)
      → m.rows task_id ≡ some row
      → (get_context m task_id).1.task_id ≡ task_id
      → (transition S cfg hooks m task_id new error now).1 ≡ true
      → lookup task_id (transition S cfg hooks m task_id new error now).0.contexts
        ≡ some
            (get_context (restarted (transition S cfg hooks m task_id new error now).0) task_id).1
  unfolding perform
  transition_reloads m task_id new error now row r i t =
      let c = (get_context m task_id).1 in
      elim (Option-cases (refusal S cfg c new now.at_check)) [
        | inl e ↦ rw (transition_done S cfg hooks m task_id new error now e) (
            let c' = enter S c new error now in
            let P : Machine F = record (get_context m task_id).0 {
              contexts = insert task_id c' (get_context m task_id).0.contexts;
              trace = announce S hooks task_id c' error new (get_context m task_id).0.trace;
            } in
            let again : (get_context (restarted (persist_context S P c')) task_id).1 ≡ c' =
              reload P c' task_id row (enter-task_id S c new error now ∙ i)
                (ap (λ (z : Dict (TaskRow F)). z task_id) (get_context-rows m task_id) ∙ r) in
            let cached : lookup task_id P.contexts ≡ some c' = ground (
              arith,
              lookup-insert task_id task_id c' (get_context m task_id).0.contexts,
              eq_refl task_id,
            ) in
            kept P c' task_id cached ∙ ap some (sym again))
        | inr (why, e) ↦ cc (rw (transition_refused S cfg hooks m task_id new error now e) at t)
      ]
