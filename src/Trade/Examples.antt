-- ===== src/Trade/Examples.antt =====
-- Runs of the trades of src/game.cpp.
use otservbr_global.Common.{
  ℕ, ◌≡◌, refl, ◌⊎◌, true, Option, none, some, List, [], ◌∷◌, ◌==◌, if◌then◌else◌,
}
use otservbr_global.Common.Places.{write_at, has}
use otservbr_global.Trade.{
  Trades, lookup, erase_key, free_trader, set_trader, cancel_item, register, internal_start_trade,
  close_side, internal_close_trade, close_all, Scene, move, exchange, transfer, accept_with,
  player_accept_trade, player_close_trade, Request, is_traded, request_with, player_request_trade,
}
use otservbr_global.Trade.Fair.{IsFair}
use otservbr_global.Trade.Requesting.{Requested, player_request_trade-Requested}
use otservbr_global.Trade.Histories.{
  Event, request, accept, close, happen, history, no_trades, history-IsFair,
}
use otservbr_global.Trade.Exchange.{Exchanges, player_accept_trade-Outcome}

-- Item 7 is a bag that holds item 8.
abbrev holds : ℕ → Option (List ℕ)
holds i = if i == 7 then some (8 ∷ []) else none

abbrev ask : ℕ → Request
ask i = record {
  is_online = λ p. true;
  near = true;
  can_throw = true;
  thing = some i;
  tradable = λ j. true;
  same_floor = λ j. true;
  item_near = λ j. true;
  holds = holds;
  script = true;
}

abbrev scene : Scene
scene = record {
  is_online = λ p. true;
  can_throw = true;
  script = true;
  can_add = λ p i. true;
  can_remove = λ i. true;
  first_moves = true;
  second_moves = true;
  closings = 1 ∷ 2 ∷ 5 ∷ [];
}

-- Player 1 offers the bag, player 2 a coin, and player 1 accepts.
abbrev offers : List Event
offers = request (ask 7) 1 2 ∷ request (ask 30) 2 1 ∷ accept scene 1 ∷ []

abbrev table : Trades
table = history offers no_trades

-- The other one accepts too, and the items change hands while the moves try to close the trade. What is
-- in an offered bag is not offered again, and a closed trade leaves the table empty.
runs :
    ((player_accept_trade scene 2 table).1 ≡ move 30 1 ∷ move 7 2 ∷ [])
    × ((player_accept_trade scene 2 table).0.traders 1 ≡ free_trader)
    × ((player_accept_trade scene 2 table).0.trade_items ≡ [])
    × (table.trade_items ≡ (30, 2) ∷ (7, 1) ∷ [])
    × ((history (request (ask 8) 3 4 ∷ []) table).trade_items ≡ table.trade_items)
    × ((history (close (λ p. true) 2 ∷ []) table).trade_items ≡ [])
unfolding history happen player_request_trade request_with is_traded internal_start_trade register
    set_trader write_at lookup erase_key player_accept_trade accept_with transfer exchange close_all
    internal_close_trade close_side cancel_item player_close_trade has
runs = (refl, refl, refl, refl, refl, refl)

history-IsFair_example : IsFair (history offers no_trades)
history-IsFair_example = history-IsFair offers

player_request_trade-Requested_example :
    Requested (ask 8) 3 4 table (player_request_trade (ask 8) 3 4 table)
player_request_trade-Requested_example = player_request_trade-Requested (ask 8) 3 4 table

player_accept_trade-Outcome_example :
    ((player_accept_trade scene 2 table).1 ≡ [])
    ⊎ Exchanges scene 2 table (player_accept_trade scene 2 table)
player_accept_trade-Outcome_example =
    player_accept_trade-Outcome scene 2 table (history-IsFair offers)
