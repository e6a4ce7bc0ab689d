-- ===== src/Kernel/Bus.antt =====
-- InMemoryEventBus of packages/kernel/events/bus.py. A subscriber is a name that
-- raises nothing, and what it is called with is recorded in `delivered`; the reading of the clock is the argument `now`.
use ai_devops.Common.{
  ℕ, ◌-◌, String, Option, List, [], ◌∷◌, ◌++◌, map, length, drop, str_eq, if◌then◌else◌,
}
use ai_devops.PlanSchema.Json.{Fields}

-- EventEnvelope
pub record EventEnvelope : Type 0 where
  pub event_type : String
  pub payload : Fields
  pub created_at : ℕ
  pub source : Option String
  pub actor_id : String
  pub actor_type : String

-- InMemoryEventBus
pub record EventBus : Type 0 where
  pub subscribers : List String
  pub history : List EventEnvelope
  pub max_history : ℕ
  pub delivered : List (String × EventEnvelope)

-- subscribe
unfoldable pub subscribe : String → EventBus → EventBus
subscribe name b = record b { subscribers = b.subscribers ++ name ∷ [] }

unfoldable pub remove_name : String → List String → List String
remove_name name [] = []
remove_name name (x ∷ xs) = if str_eq x name then xs else x ∷ remove_name name xs

-- what subscribe returns
unfoldable pub unsubscribe : String → EventBus → EventBus
unfolding remove_name
unsubscribe name b = record b { subscribers = remove_name name b.subscribers }

-- deque.append with a maximal length
unfoldable pub append_bounded : ℕ → List EventEnvelope → EventEnvelope → List EventEnvelope
append_bounded limit history e =
    let longer = history ++ e ∷ [] in drop (length longer - limit) longer

-- publish
unfoldable pub publish : EventEnvelope → EventBus → EventBus
unfolding append_bounded
publish e b = record b {
  history = append_bounded b.max_history b.history e;
  delivered = b.delivered ++ map (λ name. (name, e)) b.subscribers;
}
