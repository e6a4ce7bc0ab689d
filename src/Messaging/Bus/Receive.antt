-- ===== src/Messaging/Bus/Receive.antt =====
-- What receive_messages of orchestrator/bin/message_bus.py returns and marks.
use ai_devops.Common.{
  ℕ, ◌≤◌, ◌+◌, zero, suc, String, Bool, true, false, List, [], ◌∷◌, ◌++◌, length, take, ltb, not,
  ◌&&◌, ◌||◌, ◌≡◌, refl, ap, ◌∙◌, str_eq, eq_iff, arith, if◌then◌else◌, length-append, Bool-cases,
  inl, inr,
}
use ai_devops.Common.Names.{mem, distinct, distinct-snoc}
use ai_devops.Messaging.Store.{
  Message, MessageRow, get_pending_messages, mark_message_delivered, by_time, undelivered_to,
}
use ai_devops.Messaging.Bus.{
  MessageBus, message_ids, add_unseen, add_pending, drain, mark_all, loaded, receive_messages,
}

module _ {C : Type 0} where
  pub message_ids-append :
      (xs ys : List (Message C)) → message_ids (xs ++ ys) ≡ (message_ids xs ++ message_ids ys)
  unfolding message_ids
  message_ids-append [] ys = refl
  message_ids-append (x ∷ xs) ys = cc (message_ids-append xs ys)

  -- No two messages of the list have the same id.
  abbrev pub IsUnique : List (Message C) → Type 0
  IsUnique ms = distinct (message_ids ms) ≡ true

  add_unseen-IsUnique :
      (ms : List (Message C)) (m : Message C) → IsUnique ms → IsUnique (add_unseen ms m)
  unfolding add_unseen
  add_unseen-IsUnique ms m h = elim (Bool-cases (mem m.message_id (message_ids ms))) [
    | inl e ↦ rw e h
    | inr e ↦
        rw (e, message_ids-append ms (m ∷ [])) (distinct-snoc m.message_id (message_ids ms) h e)
  ]

  add_unseen-length :
      (ms : List (Message C)) (m : Message C) → length (add_unseen ms m) ≤ length ms + 1
  unfolding add_unseen
  add_unseen-length ms m = ground (arith, length-append ms (m ∷ []))

  add_pending-IsUnique : (ms ps : List (Message C)) → IsUnique ms → IsUnique (add_pending ms ps)
  unfolding add_pending
  add_pending-IsUnique ms [] h = h
  add_pending-IsUnique ms (p ∷ ps) h =
      add_pending-IsUnique (add_unseen ms p) ps (add_unseen-IsUnique ms p h)

  add_pending-length :
      (ms ps : List (Message C)) → length (add_pending ms ps) ≤ length ms + length ps
  unfolding add_pending
  add_pending-length ms [] = omega arith
  add_pending-length ms (p ∷ ps) =
      omega (arith, add_pending-length (add_unseen ms p) ps, add_unseen-length ms p)

  drain-IsUnique :
      (limit : ℕ) (ms queue : List (Message C)) → IsUnique ms → IsUnique (drain limit ms queue).0
  unfolding drain
  drain-IsUnique limit ms [] h = h
  drain-IsUnique limit ms (m ∷ queue) h = elim (Bool-cases (ltb (length ms) limit)) [
    | inl e ↦ rw e (drain-IsUnique limit (add_unseen ms m) queue (add_unseen-IsUnique ms m h))
    | inr e ↦ rw e h
  ]

  drain-length :
      (limit : ℕ) (ms queue : List (Message C))
      → length ms ≤ limit
      → length (drain limit ms queue).0 ≤ limit
  unfolding drain
  drain-length limit ms [] h = h
  drain-length limit ms (m ∷ queue) h = elim (Bool-cases (ltb (length ms) limit)) [
    | inl e ↦
        rw e
          (drain-length limit (add_unseen ms m) queue (ground (arith, e, add_unseen-length ms m)))
    | inr e ↦ rw e h
  ]

  length-take : (n : ℕ) (ms : List (Message C)) → length (take n ms) ≤ n
  length-take zero ms = omega arith
  length-take (suc n) [] = omega arith
  length-take (suc n) (m ∷ ms) = omega (arith, length-take n ms)

  loaded-length :
      (agent : String) (limit : ℕ) (bus : MessageBus C) → length (loaded agent limit bus) ≤ limit
  unfolding loaded get_pending_messages
  loaded-length agent limit bus = elim (Bool-cases bus.persist) [
    | inr e ↦ rw e (omega arith)
    | inl e ↦ rw e (
        omega (
          arith,
          add_pending-length [] (take limit (by_time (undelivered_to agent bus.table))),
          length-take limit (by_time (undelivered_to agent bus.table)),
        ))
  ]

  loaded-IsUnique :
      (agent : String) (limit : ℕ) (bus : MessageBus C) → IsUnique (loaded agent limit bus)
  unfolding loaded
  loaded-IsUnique agent limit bus = elim (Bool-cases bus.persist) [
    | inr e ↦ rw e refl
    | inl e ↦ rw e (add_pending-IsUnique [] (get_pending_messages agent limit bus.table) refl)
  ]

  -- receive_messages returns at most `limit` messages, no two of them with the same id, though a
  -- message may stand both in the table and in the queue.
  pub receive_messages-IsUnique :
      (agent : String) (limit : ℕ) (bus : MessageBus C)
      → IsUnique (receive_messages agent limit bus).1
        × (length (receive_messages agent limit bus).1 ≤ limit)
  unfolding receive_messages
  receive_messages-IsUnique agent limit bus = (
    drain-IsUnique limit (loaded agent limit bus) (bus.agent_queues agent)
        (loaded-IsUnique agent limit bus),
    drain-length limit (loaded agent limit bus) (bus.agent_queues agent)
        (loaded-length agent limit bus),
  )

  -- The table has a row of this id that is not delivered.
  abbrev pub waits : String → List (MessageRow C) → Bool
  waits id [] = false
  waits id (r ∷ rs) = (str_eq r.message.message_id id && not r.delivered) || waits id rs

  waits-mark :
      (k id : String) (rows : List (MessageRow C))
      → waits k (mark_message_delivered id rows) ≡ (not (str_eq id k) && waits k rows)
  unfolding mark_message_delivered
  waits-mark k id [] = ground arith
  waits-mark k id (r ∷ rs) = ground (
    arith,
    waits-mark k id rs,
    eq_iff r.message.message_id id,
    eq_iff r.message.message_id k,
    eq_iff id k,
  )

  waits-mark_all :
      (k : String) (ms : List (Message C)) (rows : List (MessageRow C))
      → waits k (mark_all ms rows) ≡ (not (mem k (message_ids ms)) && waits k rows)
  unfolding mark_all message_ids
  waits-mark_all k [] rows = refl
  waits-mark_all k (m ∷ ms) rows = ground (
    arith,
    waits-mark_all k ms (mark_message_delivered m.message_id rows),
    waits-mark k m.message_id rows,
    eq_iff m.message_id k,
    eq_iff k m.message_id,
  )

  -- With persistence, after receive_messages exactly the messages that waited in the table and were
  -- not returned still wait there.
  pub waits-receive_messages :
      (agent : String) (limit : ℕ) (bus : MessageBus C) (k : String)
      → bus.persist ≡ true
      → waits k (receive_messages agent limit bus).0.table
        ≡ (not (mem k (message_ids (receive_messages agent limit bus).1)) && waits k bus.table)
  unfolding receive_messages
  waits-receive_messages agent limit bus k h =
      let got = (drain limit (loaded agent limit bus) (bus.agent_queues agent)).0 in
      let marked = waits-mark_all k got bus.table in
      ap (λ b. waits k (if b then mark_all got bus.table else bus.table)) h ∙ marked
