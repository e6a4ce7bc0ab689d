-- ===== src/Messaging/Bus.antt =====
-- MessageBus of orchestrator/bin/message_bus.py. A callback is a name, and what it is called with is
-- recorded in `calls`. The id of a new message, which the code draws at random, and its time are
-- arguments. A queue that does not exist is an empty one.
pub mod Receive
pub mod Fifo
mod Tests
use ai_devops.Common.{
  ℕ, String, Bool, true, false, Option, none, some, List, [], ◌∷◌, ◌++◌, map, length, ltb, str_eq,
  if◌then◌else◌,
}
use ai_devops.Common.Names.{mem}
use ai_devops.Messaging.Store.{
  Message, MessageRow, save_message, get_pending_messages, mark_message_delivered,
}

-- MessageBus, with the table that it works on
pub record MessageBus (C : Type 0) : Type 0 where
  pub persist : Bool
  pub subscribers : String → List String
  pub agent_queues : String → List (Message C)
  pub table : List (MessageRow C)
  pub calls : List (String × Message C)

-- d[k] = v
unfoldable pub at_key : {A : Type 0} → String → A → (String → A) → String → A
at_key k v f j = if str_eq k j then v else f j

-- callbacks.remove(c), with its ValueError caught
remove_first : String → List String → List String
remove_first c [] = []
remove_first c (x ∷ xs) = if str_eq x c then xs else x ∷ remove_first c xs

module _ {C : Type 0} where
  -- self._agent_queues[agent].put(message)
  unfoldable pub put_queue : String → Message C → MessageBus C → MessageBus C
  unfolding at_key
  put_queue agent m bus = record bus {
    agent_queues = at_key agent (bus.agent_queues agent ++ m ∷ []) bus.agent_queues;
  }

  -- if self.persist: save_message(message.to_dict())
  unfoldable pub persist_message : (C → C) → Message C → MessageBus C → MessageBus C
  persist_message reload m bus =
      if bus.persist then record bus { table = save_message reload m bus.table } else bus

  -- publish
  unfoldable pub publish :
      (C → C) → String → ℕ → String → C → String → String → MessageBus C → MessageBus C
  unfolding put_queue persist_message
  publish reload id now topic content from_agent to_agent bus =
      let m : Message C = record {
        message_id = id;
        from_agent = from_agent;
        to_agent = to_agent;
        content = content;
        timestamp = now;
        topic = some topic;
      } in
      let saved = persist_message reload m bus in
      let queued = if str_eq to_agent "*" then saved else put_queue to_agent m saved in
      record queued { calls = queued.calls ++ map (λ c. (c, m)) (saved.subscribers topic) }

  -- subscribe
  pub subscribe : String → String → String → MessageBus C → MessageBus C
  unfolding at_key
  subscribe agent topic callback bus = record bus {
    subscribers = at_key topic (bus.subscribers topic ++ callback ∷ []) bus.subscribers;
  }

  -- unsubscribe
  pub unsubscribe : String → String → Option String → MessageBus C → MessageBus C
  unfolding at_key remove_first
  unsubscribe agent topic none bus = bus
  unsubscribe agent topic (some callback) bus = record bus {
    subscribers = at_key topic (remove_first callback (bus.subscribers topic)) bus.subscribers;
  }

  -- send_message
  unfoldable pub send_message :
      (C → C) → String → ℕ → String → String → C → Option String → MessageBus C → MessageBus C
  unfolding put_queue persist_message
  send_message reload id now from_agent to_agent content topic bus =
      let m : Message C = record {
        message_id = id;
        from_agent = from_agent;
        to_agent = to_agent;
        content = content;
        timestamp = now;
        topic = topic;
      } in
      put_queue to_agent m (persist_message reload m bus)

  unfoldable pub message_ids : List (Message C) → List String
  message_ids ms = map (λ m. m.message_id) ms

  -- if msg.message_id not in seen_ids: messages.append(msg). The set seen_ids holds the ids of the
  -- list at all times.
  unfoldable pub add_unseen : List (Message C) → Message C → List (Message C)
  unfolding message_ids
  add_unseen messages m =
      if mem m.message_id (message_ids messages) then messages else messages ++ m ∷ []

  -- the loop over the pending messages
  unfoldable pub add_pending : List (Message C) → List (Message C) → List (Message C)
  unfolding add_unseen
  add_pending messages [] = messages
  add_pending messages (m ∷ ms) = add_pending (add_unseen messages m) ms

  -- the loop over the queue, with what is left of it
  unfoldable pub drain :
      ℕ → List (Message C) → List (Message C) → List (Message C) × List (Message C)
  unfolding add_unseen
  drain limit messages [] = (messages, [])
  drain limit messages (m ∷ queue) =
      let rest = drain limit (add_unseen messages m) queue in
      if ltb (length messages) limit then rest else (messages, m ∷ queue)

  unfoldable pub mark_all : List (Message C) → List (MessageRow C) → List (MessageRow C)
  mark_all [] rows = rows
  mark_all (m ∷ ms) rows = mark_all ms (mark_message_delivered m.message_id rows)

  -- messages, before the queue is read
  unfoldable pub loaded : String → ℕ → MessageBus C → List (Message C)
  unfolding add_pending
  loaded agent limit bus =
      if bus.persist then add_pending [] (get_pending_messages agent limit bus.table) else []

  -- receive_messages, for a limit that is not negative
  unfoldable pub receive_messages : String → ℕ → MessageBus C → MessageBus C × List (Message C)
  unfolding loaded drain mark_all at_key
  receive_messages agent limit bus =
      let drained = drain limit (loaded agent limit bus) (bus.agent_queues agent) in
      (
        record bus {
          agent_queues = at_key agent drained.1 bus.agent_queues;
          table = if bus.persist then mark_all drained.0 bus.table else bus.table;
        },
        drained.0,
      )

  -- get_queue_size
  pub get_queue_size : String → MessageBus C → ℕ
  get_queue_size agent bus = length (bus.agent_queues agent)

  -- clear_queue
  pub clear_queue : String → MessageBus C → MessageBus C
  unfolding at_key
  clear_queue agent bus = record bus { agent_queues = at_key agent [] bus.agent_queues }
