-- ===== src/Events/EventBus/Delivery.antt =====
-- Who hears an event: those who have subscribed and not left, each once, in their order.
use kong_fu_chess.Prelude.{
  ℕ, suc, ◌==◌, not, Bool, true, false, ◌||◌, Bool-cases, if_not, List, [], ◌∷◌, ◌++◌, filter,
  filter-filter, if◌then◌else◌, ◌≡◌, refl, ap, ◌∙◌, sym, inl, inr, arith,
}
use kong_fu_chess.Events.GameEvent.{GameEvent}
use kong_fu_chess.Events.EventBus.{
  Handler, Subscription, EventBus, new_bus, subscribe, unsubscribe, notify, publish,
}

pub data BusCall (World : Type 0) : Type 0 where
  subscribes : Handler GameEvent World → BusCall World
  unsubscribes : ℕ → BusCall World

module _ {World : Type 0} where
  unfoldable pub calls : EventBus World → List (BusCall World) → EventBus World
  calls bus [] = bus
  calls bus (subscribes handler ∷ rest) = calls (subscribe bus handler).0 rest
  calls bus (unsubscribes id ∷ rest) = calls (unsubscribe bus id) rest

  -- One of the calls takes the number away.
  abbrev pub leaves : ℕ → List (BusCall World) → Bool
  leaves n [] = false
  leaves n (subscribes handler ∷ rest) = leaves n rest
  leaves n (unsubscribes id ∷ rest) = n == id || leaves n rest

  -- The handlers whose numbers, counted from `n` on, no later call takes away.
  abbrev pub heard : ℕ → List (BusCall World) → GameEvent → World → World
  heard n [] event world = world
  heard n (subscribes handler ∷ rest) event world =
      let here = if leaves n rest then world else handler event world in
      heard (suc n) rest event here
  heard n (unsubscribes id ∷ rest) event world = heard n rest event world

  filter_all : (xs : List (Subscription World)) → filter (λ s. true) xs ≡ xs
  filter_all [] = refl
  filter_all (x ∷ xs) = ap (λ ys. x ∷ ys) (filter_all xs)

  -- One subscription more, at the end.
  notify-snoc :
      (t : Subscription World → Bool) (xs : List (Subscription World)) (x : Subscription World)
      (event : GameEvent) (world : World)
      → notify (filter t (xs ++ x ∷ [])) event world ≡ (
          if t x
          then x.handler event (notify (filter t xs) event world)
          else notify (filter t xs) event world)
  unfolding notify
  notify-snoc t [] x event world = elim (Bool-cases (t x)) [
    | inl stays ↦ rw stays refl
    | inr goes ↦ rw goes refl
  ]
  notify-snoc t (y ∷ ys) x event world = elim (Bool-cases (t y)) [
    | inl stays ↦ rw stays (notify-snoc t ys x event (y.handler event world))
    | inr goes ↦ rw goes (notify-snoc t ys x event world)
  ]

  -- Those whom the calls leave in place hear first, then those whom they add.
  publish-heard :
      (bus : EventBus World) (cs : List (BusCall World)) (event : GameEvent) (world : World)
      → publish (calls bus cs) event world
        ≡ heard bus.next_id cs event
            (notify (filter (λ s. not (leaves s.id cs)) bus.subscriptions) event world)
  unfolding publish calls subscribe unsubscribe
  publish-heard bus [] event world =
      ap (λ xs. notify xs event world) (sym (filter_all bus.subscriptions))
  publish-heard bus (subscribes handler ∷ rest) event world =
      let stays = λ (s : Subscription World). not (leaves s.id rest) in
      let before = notify (filter stays bus.subscriptions) event world in
      publish-heard (subscribe bus handler).0 rest event world
      ∙ ap (heard (suc bus.next_id) rest event) (
          notify-snoc stays bus.subscriptions _ event world
          ∙ sym (if_not (leaves bus.next_id rest) before (handler event before)))
  publish-heard bus (unsubscribes id ∷ rest) event world =
      publish-heard (unsubscribe bus id) rest event world
      ∙ ap (λ xs. heard bus.next_id rest event (notify xs event world))
          (filter-filter _ _ _ bus.subscriptions (λ s. ground arith))

  -- After every history of subscriptions and of calls of `unsubscribe` on a new bus, an event that is
  -- published is handed to the handlers whose numbers, 1 to the first and so on, no later call takes
  -- away: to each once, in the order in which they have subscribed.
  pub publish-calls :
      (cs : List (BusCall World)) (event : GameEvent) (world : World)
      → publish (calls new_bus cs) event world ≡ heard 1 cs event world
  unfolding notify
  publish-calls cs event world = publish-heard new_bus cs event world
