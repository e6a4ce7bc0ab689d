-- ===== src/Messaging/Store.antt =====
-- Message of orchestrator/bin/message_bus.py and the messages table of orchestrator/bin/db.py. The
-- content is a type of the caller's; what the content column gives back is the argument `reload`.
use ai_devops.Common.{
  ℕ, String, Bool, true, false, Option, List, [], ◌∷◌, ◌++◌, take, str_eq, leb, not, ◌&&◌,
  if◌then◌else◌,
}

-- Message
pub record Message (C : Type 0) : Type 0 where
  pub message_id : String
  pub from_agent : String
  pub to_agent : String
  pub content : C
  pub timestamp : ℕ
  pub topic : Option String

-- A row, with its content as the column gives it back.
pub record MessageRow (C : Type 0) : Type 0 where
  pub message : Message C
  pub delivered : Bool

module _ {C : Type 0} where
  unfoldable pub delete_message : String → List (MessageRow C) → List (MessageRow C)
  delete_message id [] = []
  delete_message id (r ∷ rs) =
      let rest = delete_message id rs in if str_eq r.message.message_id id then rest else r ∷ rest

  -- save_message
  unfoldable pub save_message : (C → C) → Message C → List (MessageRow C) → List (MessageRow C)
  unfolding delete_message
  save_message reload m rows =
      delete_message m.message_id rows
      ++ record { message = record m { content = reload m.content }; delivered = false } ∷ []

  -- WHERE to_agent = ? AND delivered = 0
  unfoldable pub undelivered_to : String → List (MessageRow C) → List (Message C)
  undelivered_to agent [] = []
  undelivered_to agent (r ∷ rs) =
      let rest = undelivered_to agent rs in
      if str_eq r.message.to_agent agent && not r.delivered then r.message ∷ rest else rest

  -- ORDER BY timestamp ASC: messages of the same time stay in the table's order
  unfoldable pub insert_by_time : Message C → List (Message C) → List (Message C)
  insert_by_time m [] = m ∷ []
  insert_by_time m (n ∷ ns) =
      if leb m.timestamp n.timestamp then m ∷ n ∷ ns else n ∷ insert_by_time m ns

  unfoldable pub by_time : List (Message C) → List (Message C)
  unfolding insert_by_time
  by_time [] = []
  by_time (m ∷ ms) = insert_by_time m (by_time ms)

  -- get_pending_messages
  unfoldable pub get_pending_messages : String → ℕ → List (MessageRow C) → List (Message C)
  unfolding undelivered_to by_time
  get_pending_messages agent limit rows = take limit (by_time (undelivered_to agent rows))

  -- mark_message_delivered
  unfoldable pub mark_message_delivered : String → List (MessageRow C) → List (MessageRow C)
  mark_message_delivered id [] = []
  mark_message_delivered id (r ∷ rs) =
      (if str_eq r.message.message_id id then record r { delivered = true } else r)
      ∷ mark_message_delivered id rs
