-- ===== src/Trade.antt =====
-- The trades of two players: `playerRequestTrade`, `internalStartTrade`, `playerAcceptTrade` and
-- `internalCloseTrade` of src/game.cpp, with `checkTradeState` of src/player.cpp.
-- Players and items stand for their addresses. `references` counts the references that the trades hold;
-- `ReleaseItem` gives one back. What the map, the items and the scripts say is a parameter, and the
-- moves of items are answers. Messages and `onTradeEvent` are not here.
pub mod Fair
pub mod Clearing
pub mod Closing
pub mod Accepting
pub mod Starting
pub mod Requesting
pub mod Histories
pub mod Exchange
mod Examples
use otservbr_global.Common.{
  ℕ, ◌+◌, ◌-◌, Bool, true, false, not, ◌&&◌, ◌||◌, Option, none, some, List, [], ◌∷◌, ltb, ◌==◌,
  if◌then◌else◌, length,
}
use otservbr_global.Common.Places.{write_at, has, points_to}

pub data TradeState : Type 0 where
  no_trade initiated accepted acknowledged transferring : TradeState

-- The members of `Player` that a trade reads or writes.
pub record Trader : Type 0 where
  pub state : TradeState
  pub partner : Option ℕ
  pub item : Option ℕ

pub record Trades : Type 0 where
  pub traders : ℕ → Trader
  pub trade_items : List (ℕ × ℕ)
  pub references : ℕ → ℕ

abbrev pub is_none : TradeState → Bool
is_none no_trade = true
is_none initiated = false
is_none accepted = false
is_none acknowledged = false
is_none transferring = false

abbrev pub is_acknowledged : TradeState → Bool
is_acknowledged no_trade = false
is_acknowledged initiated = false
is_acknowledged accepted = false
is_acknowledged acknowledged = true
is_acknowledged transferring = false

abbrev pub is_initiated : TradeState → Bool
is_initiated no_trade = false
is_initiated initiated = true
is_initiated accepted = false
is_initiated acknowledged = false
is_initiated transferring = false

abbrev pub is_accepted : TradeState → Bool
is_accepted no_trade = false
is_accepted initiated = false
is_accepted accepted = true
is_accepted acknowledged = false
is_accepted transferring = false

abbrev pub is_transferring : TradeState → Bool
is_transferring no_trade = false
is_transferring initiated = false
is_transferring accepted = false
is_transferring acknowledged = false
is_transferring transferring = true

-- `std::map` from items to players.
unfoldable pub lookup : ℕ → List (ℕ × ℕ) → Option ℕ
lookup i [] = none
lookup i ((j, p) ∷ m) = let rest = lookup i m in if j == i then some p else rest

unfoldable pub erase_key : ℕ → List (ℕ × ℕ) → List (ℕ × ℕ)
erase_key i [] = []
erase_key i ((j, p) ∷ m) = let rest = erase_key i m in if j == i then rest else (j, p) ∷ rest

abbrev pub free_trader : Trader
free_trader = record { state = no_trade; partner = none; item = none }

unfoldable pub set_trader : ℕ → Trader → Trades → Trades
set_trader p x w = record w { traders = write_at p x w.traders }

-- `tradeItems.find`, `ReleaseItem` and `tradeItems.erase`
unfoldable pub cancel_item : Option ℕ → Trades → Trades
cancel_item none w = w
cancel_item (some i) w = elim (lookup i w.trade_items) [
  | none ↦ w
  | some p ↦ record w {
    trade_items = erase_key i w.trade_items;
    references = write_at i (w.references i - 1) w.references;
  }
]

unfoldable pub register : ℕ → ℕ → Trades → Trades
register i p w = record w {
  trade_items = (i, p) ∷ erase_key i w.trade_items;
  references = write_at i (w.references i + 1) w.references;
}

-- What the partner of a new offer becomes.
abbrev pub invited : ℕ → Trader → Trader
invited p y = if is_none y.state then record y { state = acknowledged; partner = some p } else y

unfoldable pub internal_start_trade : ℕ → ℕ → ℕ → Trades → Bool × Trades
internal_start_trade p q i w =
    let x = w.traders p in
    let y = w.traders q in
    if not (is_none x.state) && not (is_acknowledged x.state && points_to x.partner q)
    then (false, w)
    else if not (is_none y.state) && not (points_to y.partner p)
    then (false, w)
    else (
      true,
      set_trader q (invited p y) (
          register i p
            (set_trader p (record { state = initiated; partner = some q; item = some i }) w)),
    )

-- One side of a trade that is closed.
unfoldable pub close_side : ℕ → Trades → Trades
close_side p w = set_trader p free_trader (cancel_item (w.traders p).item w)

abbrev pub partner_transfers : (ℕ → Trader) → Option ℕ → Bool
partner_transfers f none = false
partner_transfers f (some q) = is_transferring (f q).state

abbrev pub close_partner : Option ℕ → Trades → Trades
close_partner none w = w
close_partner (some q) w = close_side q w

unfoldable pub internal_close_trade : ℕ → Trades → Trades
internal_close_trade p w =
    let x = w.traders p in
    if partner_transfers w.traders x.partner || is_transferring x.state
    then w
    else close_partner x.partner (close_side p w)

-- What the rest of the program says while a trade is accepted. The answers are those of
-- `eventPlayerOnTradeAccept`, of the tests of `internalAddItem` and `internalRemoveItem`, and of both
-- calls of `internalMoveItem`; `closings` are the players whose trades the moves want to close.
pub record Scene : Type 0 where
  pub is_online : ℕ → Bool
  pub can_throw : Bool
  pub script : Bool
  pub can_add : ℕ → ℕ → Bool
  pub can_remove : ℕ → Bool
  pub first_moves : Bool
  pub second_moves : Bool
  pub closings : List ℕ

-- An item that comes to a player.
pub data Move : Type 0 where
  move : ℕ → ℕ → Move

unfoldable pub close_all : List ℕ → Trades → Trades
close_all [] w = w
close_all (r ∷ rs) w = close_all rs (internal_close_trade r w)

-- The tests and the moves; `internalAddItem` refuses a null item.
unfoldable pub exchange : Scene → ℕ → ℕ → Option ℕ → Option ℕ → List Move
exchange s p q none o = []
exchange s p q (some i) none = []
exchange s p q (some i) (some j) =
    if s.can_add q i && (s.can_add p j && (s.can_remove i && (s.can_remove j && s.first_moves)))
    then (if s.second_moves then move i q ∷ move j p ∷ [] else move i q ∷ [])
    else []

-- Both have accepted: `player` is `p`, and `tradePartner` is `q`.
unfoldable pub transfer : Scene → ℕ → ℕ → Trades → Trades × List Move
transfer s p q w =
    let x = w.traders p in
    let y = w.traders q in
    let w' =
      set_trader q (record y { state = transferring })
        (set_trader p (record x { state = transferring }) w) in
    let w'' = close_all s.closings (cancel_item y.item (cancel_item x.item w')) in
    (set_trader q free_trader (set_trader p free_trader w''), exchange s p q x.item y.item)

-- `player` has accepted; what the partner's state makes of it.
unfoldable pub accept_with : Scene → ℕ → ℕ → Trades → Trades × List Move
accept_with s p q w =
    let w' = set_trader p (record (w.traders p) { state = accepted }) w in
    if not (is_accepted ((w'.traders q).state))
    then (w', [])
    else if not s.script
    then (internal_close_trade p w', [])
    else transfer s p q w'

unfoldable pub player_accept_trade : Scene → ℕ → Trades → Trades × List Move
player_accept_trade s p w =
    let x = w.traders p in
    if not (s.is_online p)
    then (w, [])
    else if not (is_acknowledged x.state || is_initiated x.state)
    then (w, [])
    else elim (x.partner) [
      | none ↦ (w, [])
      | some q ↦ if not s.can_throw then (w, []) else accept_with s p q w
    ]

unfoldable pub player_close_trade : (ℕ → Bool) → ℕ → Trades → Trades
player_close_trade is_online p w = if is_online p then internal_close_trade p w else w

-- `checkTradeState` for an item in containers, given by their addresses from the inside out.
unfoldable pub check_trade_state : ℕ → ℕ → List ℕ → Trades → Trades
check_trade_state p i containers w =
    let x = w.traders p in
    elim (x.item) [
      | none ↦ w
      | some j ↦
          if is_transferring x.state
          then w
          else if (j == i) || has j containers
          then internal_close_trade p w
          else w
    ]

-- What a request asks of the map and the items. `holds` gives what a container holds at any depth, and
-- none for an item that is no container.
pub record Request : Type 0 where
  pub is_online : ℕ → Bool
  pub near : Bool
  pub can_throw : Bool
  pub thing : Option ℕ
  pub tradable : ℕ → Bool
  pub same_floor : ℕ → Bool
  pub item_near : ℕ → Bool
  pub holds : ℕ → Option (List ℕ)
  pub script : Bool

abbrev pub is_holding : Option (List ℕ) → ℕ → Bool
is_holding none i = false
is_holding (some is) i = has i is

-- The loop over `tradeItems`; its two copies differ in nothing but the second test, which a thing that
-- is no container passes.
unfoldable pub is_traded : (ℕ → Option (List ℕ)) → ℕ → List (ℕ × ℕ) → Bool
is_traded holds i [] = false
is_traded holds i ((j, p) ∷ m) =
    ((i == j) || (is_holding (holds i) j || is_holding (holds j) i)) || is_traded holds i m

abbrev pub holding_count : Option (List ℕ) → ℕ
holding_count none = 0
holding_count (some is) = length is

unfoldable pub request_with : Request → ℕ → ℕ → ℕ → Trades → Trades
request_with r p q i w =
    if not (r.tradable i) || not (r.same_floor i)
    then w
    else if not (r.item_near i)
    then w
    else if is_traded r.holds i w.trade_items
    then w
    else if ltb 99 (holding_count (r.holds i))
    then w
    else if not r.script
    then w
    else (internal_start_trade p q i w).1

-- A walk to an item that is not near, and the request after it, are calls of the scheduler.
unfoldable pub player_request_trade : Request → ℕ → ℕ → Trades → Trades
player_request_trade r p q w =
    if not (r.is_online p)
    then w
    else if not (r.is_online q) || (q == p)
    then w
    else if not r.near || not r.can_throw
    then w
    else elim (r.thing) [ none ↦ w | some i ↦ request_with r p q i w ]
