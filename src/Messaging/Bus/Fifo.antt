-- ===== src/Messaging/Bus/Fifo.antt =====
-- The queues of orchestrator/bin/message_bus.py, without persistence.
use ai_devops.Common.{
  ℕ, ◌+◌, zero, suc, String, true, false, List, [], ◌∷◌, ◌++◌, length, take, drop, ltb, ◌≡◌, refl,
  ap, sym, ◌∙◌, subst, eq_iff, eq_refl, arith, length-append, append-nil, append_assoc,
}
use ai_devops.Common.Names.{mem, distinct, mem-append}
use ai_devops.Messaging.Store.{Message}
use ai_devops.Messaging.Bus.{
  MessageBus, message_ids, add_unseen, drain, loaded, at_key, receive_messages,
}
use ai_devops.Messaging.Bus.Receive.{IsUnique, message_ids-append}

mem-distinct :
    (x : String) (xs ys : List String) → distinct (xs ++ x ∷ ys) ≡ true → mem x xs ≡ false
mem-distinct x [] ys h = refl
mem-distinct x (y ∷ xs) ys h =
    ground (arith, h, mem-append y xs (x ∷ ys), mem-distinct x xs ys, eq_iff x y, eq_iff y x)

module _ {C : Type 0} where
  unseen :
      (ms queue : List (Message C)) (m : Message C)
      → IsUnique (ms ++ m ∷ queue)
      → add_unseen ms m ≡ (ms ++ m ∷ [])
  unfolding add_unseen message_ids
  unseen ms queue m h = ground (
    arith,
    h,
    message_ids-append ms (m ∷ queue),
    mem-distinct m.message_id (message_ids ms) (message_ids queue),
  )

  drain-take :
      (n limit : ℕ) (ms queue : List (Message C))
      → limit ≡ length ms + n
      → IsUnique (ms ++ queue)
      → drain limit ms queue ≡ (ms ++ take n queue, drop n queue)
  unfolding drain
  drain-take zero limit ms [] e h = ap (λ xs. (xs, [])) (sym (append-nil ms))
  drain-take (suc n) limit ms [] e h = ap (λ xs. (xs, [])) (sym (append-nil ms))
  drain-take zero limit ms (m ∷ queue) e h =
      let full : ltb (length ms) limit ≡ false = ground (arith, e) in
      rw full (ap (λ xs. (xs, m ∷ queue)) (sym (append-nil ms)))
  drain-take (suc n) limit ms (m ∷ queue) e h =
      let room : ltb (length ms) limit ≡ true = ground (arith, e) in
      let next = append_assoc ms (m ∷ []) queue in
      let rest = append_assoc ms (m ∷ []) (take n queue) in
      rw (room, unseen ms queue m h)
        (drain-take n limit (ms ++ m ∷ []) queue (omega (arith, e, length-append ms (m ∷ [])))
            (subst IsUnique (sym next) h)
          ∙ ap (λ xs. (xs, drop n queue)) rest)

  -- Without persistence and with distinct ids in the queue, receive_messages returns the first
  -- `limit` messages of the queue in the order in which they were put there, and leaves exactly the
  -- others in it.
  pub receive_messages-take :
      (agent : String) (limit : ℕ) (bus : MessageBus C)
      → bus.persist ≡ false
      → IsUnique (bus.agent_queues agent)
      → ((receive_messages agent limit bus).1 ≡ take limit (bus.agent_queues agent))
        × ((receive_messages agent limit bus).0.agent_queues agent
            ≡ drop limit (bus.agent_queues agent))
  unfolding receive_messages loaded at_key
  receive_messages-take agent limit bus p h =
      let queue = bus.agent_queues agent in
      let none_loaded : loaded agent limit bus ≡ [] = rw p refl in
      let both : drain limit (loaded agent limit bus) queue ≡ (take limit queue, drop limit queue) =
        ap (λ ms. drain limit ms queue) none_loaded
        ∙ drain-take limit limit [] queue (omega arith) h in
      (ap (λ d. d.0) both, rw (eq_refl agent) (ap (λ d. d.1) both))
