-- ===== src/Events/EventBus.antt =====
-- src/events/event_bus.h and event_bus.cpp. A handler changes the world outside the bus, and does
-- not call back into the bus.
pub mod Delivery
use kong_fu_chess.Prelude.{ℕ, suc, ◌==◌, not, Option, none, some, List, [], ◌∷◌, ◌++◌, filter}
use kong_fu_chess.Events.GameEvent.{GameEvent}

abbrev pub Handler : Type 0 → Type 0 → Type 0
Handler Event World = Event → World → World

pub record Subscription (World : Type 0) : Type 0 where
  pub id : ℕ
  pub handler : Handler GameEvent World

pub record EventBus (World : Type 0) : Type 0 where
  pub subscriptions : List (Subscription World)
  pub next_id : ℕ

abbrev pub new_bus : {World : Type 0} → EventBus World
new_bus = record { subscriptions = []; next_id = 1 }

module _ {World : Type 0} where
  unfoldable pub subscribe : EventBus World → Handler GameEvent World → EventBus World × ℕ
  subscribe bus handler = (
    record {
      subscriptions = bus.subscriptions ++ record { id = bus.next_id; handler = handler } ∷ [];
      next_id = suc bus.next_id;
    },
    bus.next_id,
  )

  abbrev pub handle_if : {Event : Type 0} → Handler Event World → Option Event → World → World
  handle_if handler none world = world
  handle_if handler (some event) world = handler event world

  -- The template `subscribe<T>`, by what `std::get_if<T>` gives of an event.
  abbrev pub subscribe_to :
      {Event : Type 0}
      → (GameEvent → Option Event)
      → EventBus World
      → Handler Event World
      → EventBus World × ℕ
  subscribe_to get_if bus handler =
      subscribe bus (λ event world. handle_if handler (get_if event) world)

  unfoldable pub unsubscribe : EventBus World → ℕ → EventBus World
  unsubscribe bus id = record bus {
    subscriptions = filter (λ s. not (s.id == id)) bus.subscriptions;
  }

  -- The loop of `publish`.
  unfoldable pub notify : List (Subscription World) → GameEvent → World → World
  notify [] event world = world
  notify (s ∷ rest) event world = notify rest event (s.handler event world)

  unfoldable pub publish : EventBus World → GameEvent → World → World
  unfolding notify
  publish bus event world = notify bus.subscriptions event world
