-- ===== src/Trade/Histories.antt =====
-- What happens to the trades of src/game.cpp in any order, and what an exchange of items takes.
use otservbr_global.Common.{ℕ, refl, Bool, List, [], ◌∷◌, arith}
use otservbr_global.Trade.{
  Trades, free_trader, lookup, internal_close_trade, Scene, player_accept_trade, player_close_trade,
  check_trade_state, Request, player_request_trade,
}
use otservbr_global.Trade.Fair.{IsFair}
use otservbr_global.Trade.Closing.{
  check_trade_state-IsFair, player_close_trade-IsFair, internal_close_trade-IsFair,
}
use otservbr_global.Trade.Accepting.{player_accept_trade-IsFair}
use otservbr_global.Trade.Requesting.{player_request_trade-IsFair}

-- The calls that reach the trades; `logout` stands for all that close a trade without asking.
pub data Event : Type 0 where
  request : Request → ℕ → ℕ → Event
  accept : Scene → ℕ → Event
  close : (ℕ → Bool) → ℕ → Event
  touch : ℕ → ℕ → List ℕ → Event
  logout : ℕ → Event

unfoldable pub happen : Event → Trades → Trades
happen (request r p q) w = player_request_trade r p q w
happen (accept s p) w = (player_accept_trade s p w).0
happen (close is_online p) w = player_close_trade is_online p w
happen (touch p i containers) w = check_trade_state p i containers w
happen (logout p) w = internal_close_trade p w

unfoldable pub history : List Event → Trades → Trades
history [] w = w
history (e ∷ es) w = history es (happen e w)

abbrev pub no_trades : Trades
no_trades = record { traders = λ p. free_trader; trade_items = []; references = λ i. 0 }

no_trades-IsFair : IsFair no_trades
unfolding lookup
no_trades-IsFair = record {
  registered = λ p i. refl;
  mutual_partner = λ p q h. absurd (ground arith);
  alone = λ p. refl;
  shaped = λ p. (refl, refl);
  counted = λ i. refl;
}

happen-IsFair : (e : Event) (w : Trades) → IsFair w → IsFair (happen e w)
unfolding happen
happen-IsFair (request r p q) w h = player_request_trade-IsFair r p q w h
happen-IsFair (accept s p) w h = player_accept_trade-IsFair s p w h
happen-IsFair (close is_online p) w h = player_close_trade-IsFair is_online p w h
happen-IsFair (touch p i containers) w h = check_trade_state-IsFair p i containers w h
happen-IsFair (logout p) w h = internal_close_trade-IsFair w p h

history_from-IsFair : (es : List Event) (w : Trades) → IsFair w → IsFair (history es w)
unfolding history
history_from-IsFair [] w h = h
history_from-IsFair (e ∷ es) w h = history_from-IsFair es (happen e w) (happen-IsFair e w h)

-- Whatever requests, acceptances, closings, touched items and logouts come in whatever order, also
-- while the items of a trade are moving: an item is on the table exactly under the player who offers
-- it, so nobody offers an item of another trade; partners point to each other; a player's state goes
-- with the partner and the offer; and the trades hold one reference of each item on the table, and none
-- of any other.
pub history-IsFair : (es : List Event) → IsFair (history es no_trades)
history-IsFair es = history_from-IsFair es no_trades no_trades-IsFair
