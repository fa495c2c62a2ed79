-- ===== src/App/GameLoop/Hears.antt =====
-- The messages of the server, one after the other.
use kong_fu_chess.Prelude.{
  ℤ, Bool, true, false, Bool-cases, inl, inr, ◌⊎◌, Option, none, some, List, [], ◌∷◌, Returns, ok,
  ◌≡◌, ◌≢◌, refl, arith,
}
use kong_fu_chess.Io.Text.{Text}
use kong_fu_chess.Events.GameEvent.{GameEvent}
use kong_fu_chess.Engine.GameEngine.{GameEngine}
use kong_fu_chess.Engine.Invariant.{IsValid}
use kong_fu_chess.Network.Protocol.Lobby.{ServerMessageType, parse_server_message_type}
use kong_fu_chess.Network.Protocol.Game.{parse_server_game_event}
use kong_fu_chess.Network.ClientGameSync
use kong_fu_chess.Network.ClientGameSync.Sync.{apply_message-Applied}
use kong_fu_chess.View.DisconnectOverlay.{DisconnectOverlay}
use kong_fu_chess.View.DisconnectOverlay
use kong_fu_chess.App.GameLoop.{
  end_once, apply_game_ended_message, is_end, is_absence, take_message, process_server_messages,
}

-- A message with a winner ends a game that is not over, for that winner.
abbrev pub EndsOnce : Option GameEvent → GameEngine → GameEngine → Type 0
EndsOnce (some (GameEvent.game_ended winner)) e e' =
    ((e.is_game_over ≡ true) × (e' ≡ e))
    ⊎ ((e.is_game_over ≡ false) × (e' ≡ record e { is_game_over = true; winner = some winner }))
EndsOnce _ e e' = e' ≡ e

-- What a message does to the engine: the end of the game is for all, the other events are for
-- those who are not the host.
pub data Hears (host : Bool) (json : Text) (kind : ServerMessageType) (e e' : GameEngine)
    : Type 0 where
  at_end :
      kind ≡ ServerMessageType.game_ended
      → EndsOnce (parse_server_game_event json) e e'
      → Hears host json kind e e'
  at_absence :
      (kind ≡ ServerMessageType.player_disconnected) ⊎ (kind ≡ ServerMessageType.player_reconnected)
      → e' ≡ e
      → Hears host json kind e e'
  on_host : host ≡ true → kind ≢ ServerMessageType.game_ended → e' ≡ e → Hears host json kind e e'
  elsewhere :
      host ≡ false
      → kind ≢ ServerMessageType.game_ended
      → kind ≢ ServerMessageType.player_disconnected
      → kind ≢ ServerMessageType.player_reconnected
      → (b : Bool) → ClientGameSync.apply_message json e ≡ ok (e', b)
      → Hears host json kind e e'

-- All messages, in their order.
abbrev pub HearsAll : Bool → List Text → GameEngine → GameEngine → Type 0
HearsAll host [] e e' = e' ≡ e
HearsAll host (json ∷ rest) e e' =
    (e1 : GameEngine) × (Hears host json (parse_server_message_type json) e e1
      × HearsAll host rest e1 e')

is_end-≡ : (kind : ServerMessageType) → is_end kind ≡ true → kind ≡ ServerMessageType.game_ended
is_end-≡ kind h = ground arith

is_absence-≡ :
    (kind : ServerMessageType)
    → is_absence kind ≡ true
    → (kind ≡ ServerMessageType.player_disconnected) ⊎ (kind ≡ ServerMessageType.player_reconnected)
is_absence-≡ kind h = ground arith

end_once-EndsOnce :
    (e : GameEngine) (event : Option GameEvent)
    → IsValid e
    → IsValid (end_once e event) × EndsOnce event e (end_once e event)
end_once-EndsOnce e none v = (v, refl)
end_once-EndsOnce e (some (GameEvent.game_started g)) v = (v, refl)
end_once-EndsOnce e (some (GameEvent.move_completed m)) v = (v, refl)
end_once-EndsOnce e (some (GameEvent.jump_captured j)) v = (v, refl)
end_once-EndsOnce e (some (GameEvent.move_started m)) v = (v, refl)
end_once-EndsOnce e (some (GameEvent.jump_started j)) v = (v, refl)
end_once-EndsOnce e (some (GameEvent.game_ended winner)) v = elim (Bool-cases e.is_game_over) [
  | inl over ↦ simp over (v, inl (refl, refl))
  | inr playing ↦ simp playing (v, inr (refl, refl))
]

take_message-Hears :
    (host : Bool) (now : ℤ) (json : Text) (kind : ServerMessageType) (e : GameEngine)
    (o : DisconnectOverlay)
    → IsValid e
    → Returns
        (λ r. IsValid r.0 × Hears host json kind e r.0)
        (take_message host now json kind (e, o))
unfolding take_message
take_message-Hears host now json kind e o v = elim (Bool-cases (is_end kind)) [
  | inl ends ↦
      let once = end_once-EndsOnce e (parse_server_game_event json) v in
      record {
        out = (apply_game_ended_message json e, DisconnectOverlay.apply_message o now json);
        returns = rw ends refl;
        holds = (once.0, Hears.at_end (is_end-≡ kind ends) once.1);
      }
  | inr goes_on ↦ elim (Bool-cases (is_absence kind)) [
    | inl absent ↦ record {
      out = (e, DisconnectOverlay.apply_message o now json);
      returns = rw (goes_on, absent) refl;
      holds = (v, Hears.at_absence (is_absence-≡ kind absent) refl);
    }
    | inr present ↦ by_role host goes_on present
  ]
]
  where
    by_role :
        (host : Bool)
        → is_end kind ≡ false
        → is_absence kind ≡ false
        → Returns
            (λ r. IsValid r.0 × Hears host json kind e r.0)
            (take_message host now json kind (e, o))
    by_role true goes_on present = record {
      out = (e, o);
      returns = rw (goes_on, present) refl;
      holds = (v, Hears.on_host refl (λ h. cc) refl);
    }
    by_role false goes_on present =
        let r = apply_message-Applied json e v in
        record {
          out = (r.out.0, o);
          returns = rw (goes_on, present) (rw r.returns refl);
          holds = (r.holds.0, Hears.elsewhere refl (λ h. cc) (λ h. cc) (λ h. cc) r.out.1 r.returns);
        }

pub process_server_messages-HearsAll :
    (host : Bool) (clock : List Text → ℤ) (pending : List Text) (e : GameEngine)
    (o : DisconnectOverlay)
    → IsValid e
    → Returns
        (λ r. IsValid r.0 × HearsAll host pending e r.0)
        (process_server_messages host clock pending (e, o))
unfolding process_server_messages
process_server_messages-HearsAll host clock [] e o v = record {
  out = (e, o);
  returns = refl;
  holds = (v, refl);
}
process_server_messages-HearsAll host clock (json ∷ rest) e o v =
    let first = take_message-Hears host (clock rest) json (parse_server_message_type json) e o v in
    let others =
      process_server_messages-HearsAll host clock rest first.out.0 first.out.1 first.holds.0 in
    record {
      out = others.out;
      returns = rw first.returns others.returns;
      holds = (others.holds.0, (first.out.0, (first.holds.1, others.holds.1)));
    }
