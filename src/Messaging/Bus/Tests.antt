-- ===== src/Messaging/Bus/Tests.antt =====
-- An agent with two messages in its queue, one of them in the table too.
use ai_devops.Common.{
  ℕ, ◌≤◌, String, Bool, true, false, none, [], ◌∷◌, length, take, drop, not, ◌&&◌, ◌≡◌, refl,
  str_eq, if◌then◌else◌,
}
use ai_devops.Common.Names.{mem}
use ai_devops.Messaging.Store.{Message}
use ai_devops.Messaging.Bus.{MessageBus, message_ids, receive_messages}
use ai_devops.Messaging.Bus.Receive.{
  IsUnique, waits, receive_messages-IsUnique, waits-receive_messages,
}
use ai_devops.Messaging.Bus.Fifo.{receive_messages-take}

abbrev message : String → Message ℕ
message id = record {
  message_id = id;
  from_agent = "system";
  to_agent = "agent-2";
  content = 5;
  timestamp = 1;
  topic = none;
}

abbrev bus : Bool → MessageBus ℕ
bus persist = record {
  persist = persist;
  subscribers = λ topic. [];
  agent_queues = λ agent. if str_eq agent "agent-2" then message "m1" ∷ message "m2" ∷ [] else [];
  table = record { message = message "m1"; delivered = false } ∷ [];
  calls = [];
}

queue-IsUnique : IsUnique (message "m1" ∷ message "m2" ∷ [])
unfolding message_ids
queue-IsUnique = refl

receive_messages-IsUnique_example :
    IsUnique (receive_messages "agent-2" 10 (bus true)).1
    × (length (receive_messages "agent-2" 10 (bus true)).1 ≤ 10)
receive_messages-IsUnique_example = receive_messages-IsUnique "agent-2" 10 (bus true)

waits-receive_messages_example : waits "m1" (receive_messages "agent-2" 10 (bus true)).0.table ≡ (
    not (mem "m1" (message_ids (receive_messages "agent-2" 10 (bus true)).1))
    && waits "m1" (bus true).table)
waits-receive_messages_example = waits-receive_messages "agent-2" 10 (bus true) "m1" refl

receive_messages-take_example :
    ((receive_messages "agent-2" 1 (bus false)).1 ≡ take 1 (message "m1" ∷ message "m2" ∷ []))
    × ((receive_messages "agent-2" 1 (bus false)).0.agent_queues "agent-2"
        ≡ drop 1 (message "m1" ∷ message "m2" ∷ []))
receive_messages-take_example = receive_messages-take "agent-2" 1 (bus false) refl queue-IsUnique
