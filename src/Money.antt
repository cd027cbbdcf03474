-- ===== src/Money.antt =====
-- Money: `addMoney` and `removeMoney` of src/game.cpp, with `getWorth` of src/item.cpp.
-- What a player carries is a tree of items, the slots of the player as the outermost list. The tables of
-- items have the three kinds of coins as stackable. `can_remove` is the answer of `internalRemoveItem`
-- for an item, which the code does not look at. What becomes of the coins is told by the list of them;
-- where `internalAddItem` puts new ones is not here.
pub mod Change
pub mod Gathering
pub mod Paying
mod Examples
use otservbr_global.Common.{
  ℕ, zero, suc, ◌+◌, ◌-◌, ◌*◌, ◌/◌, ◌%◌, Bool, true, false, Option, none, some, List, [], ◌∷◌, ◌++◌,
  map, ltb, leb, ◌==◌, if◌then◌else◌, min,
}
use otservbr_global.Common.Words.{u8_mod, u16_mod, u32_mod, add64}
use otservbr_global.Container.{Thing, simple, holder, Items, no_items, more_items}
use otservbr_global.Container.Iterator.{tally, is_container}

abbrev pub gold_coin : ℕ
gold_coin = 2148

abbrev pub platinum_coin : ℕ
platinum_coin = 2152

abbrev pub crystal_coin : ℕ
crystal_coin = 2160

pub record Coin : Type 0 where
  pub id : ℕ
  pub count : ℕ

-- What one coin of a kind is worth, 0 for other items.
unfoldable pub unit_of : ℕ → ℕ
unit_of id =
    if id == gold_coin
    then 1
    else if id == platinum_coin
    then 100
    else if id == crystal_coin
    then 10000
    else 0

abbrev pub get_worth : Coin → ℕ
get_worth c = c.count * unit_of c.id

abbrev pub coin_of : Thing → Coin
coin_of t = record { id = t.id; count = t.count }

-- `Item::CreateItem` for a coin; both parameters are 16-bit, and a count is a byte.
unfoldable pub create_coin : ℕ → ℕ → Coin
create_coin id count =
    let count16 = count % u16_mod in
    record { id = id; count = (if count16 == 0 then 1 else count16) % u8_mod }

-- The loop of `addMoney`, on as much fuel as there are coins.
unfoldable pub crystal_stacks : ℕ → ℕ → List Coin
crystal_stacks zero coins = []
crystal_stacks (suc n) coins =
    let count = min 100 coins in
    let rest = crystal_stacks n (coins - count) in
    if ltb 0 coins then create_coin crystal_coin count ∷ rest else []

unfoldable pub coins_unless_none : ℕ → ℕ → List Coin
coins_unless_none id count = if count == 0 then [] else create_coin id count ∷ []

-- `crystalCoins * 10000` is a 32-bit product.
unfoldable pub add_money : ℕ → List Coin
add_money money =
    let crystals = money / 10000 % u32_mod in
    let below = money - crystals * 10000 % u32_mod in
    let platinum = below / 100 % u16_mod in
    if money == 0
    then []
    else crystal_stacks crystals crystals
      ++ (coins_unless_none platinum_coin platinum
          ++ coins_unless_none gold_coin (below - platinum * 100))

-- `moneyCount` and `moneyMap`, a `std::multimap`
pub record Purse : Type 0 where
  pub money_count : ℕ
  pub money_map : List (ℕ × Coin × ℕ)

-- A new entry comes behind those of the same worth. An entry has the worth, the coin and the address.
unfoldable pub emplace : ℕ × Coin × ℕ → List (ℕ × Coin × ℕ) → List (ℕ × Coin × ℕ)
emplace e [] = e ∷ []
emplace e (x ∷ m) = let rest = emplace e m in if ltb e.0 x.0 then e ∷ x ∷ m else x ∷ rest

abbrev pub purse_with : Thing → Purse → Purse
purse_with t p =
    let worth = get_worth (coin_of t) in
    if worth == 0 then p else record {
      money_count = add64 p.money_count worth;
      money_map = emplace (worth, coin_of t, t.address) p.money_map;
    }

-- The items of one container: coins go to the purse, containers to the end of the queue.
unfoldable pub visit : Items → List Items → Purse → List Items × Purse
visit no_items queue p = (queue, p)
visit (more_items (simple t) is) queue p = visit is queue (purse_with t p)
visit (more_items (holder t b js) is) queue p = visit is (queue ++ (js ∷ [])) p

-- The loop over `containers`, on fuel.
unfoldable pub gather : ℕ → List Items → Purse → Purse
gather zero queue p = p
gather (suc n) [] p = p
gather (suc n) (is ∷ queue) p = let next = visit is queue p in gather n next.0 next.1

-- The slots count as the first container.
unfoldable pub money_of : Items → Purse
money_of slots =
    gather (1 + tally is_container slots) (slots ∷ []) (record { money_count = 0; money_map = [] })

-- `internalRemoveItem`
unfoldable pub remove_coins : (ℕ → Bool) → ℕ → ℕ → Coin → List Coin
remove_coins can_remove address count c =
    if can_remove address
    then (if count == c.count then [] else record c { count = c.count - count } ∷ [])
    else c ∷ []

abbrev pub entry_coin : ℕ × Coin × ℕ → Coin
entry_coin e = e.1

-- The coins that are left, the change, and `money` as the loop leaves it.
pub record Payment : Type 0 where
  pub left : List Coin
  pub change : ℕ
  pub money : ℕ

-- The loop over `moneyMap`. The quotient of two numbers below 2 ^ 32 is rounded up to the next whole
-- number as doubles round it.
unfoldable pub pay : (ℕ → Bool) → ℕ → List (ℕ × Coin × ℕ) → Payment
pay can_remove money [] = record { left = []; change = 0; money = money }
pay can_remove money ((w, c, a) ∷ m) =
    let rest = pay can_remove (money - w) m in
    let worth = w / c.count in
    let count = (money + (worth - 1)) / worth in
    if ltb w money
    then record rest { left = remove_coins can_remove a c.count c ++ rest.left }
    else if ltb money w
    then record {
      left = remove_coins can_remove a count c ++ map entry_coin m;
      change = worth * count - money;
      money = money;
    }
    else record {
      left = remove_coins can_remove a c.count c ++ map entry_coin m;
      change = 0;
      money = money;
    }

-- The coins and, with `useBalance` for a player, the bank balance.
pub record Assets : Type 0 where
  pub coins : List Coin
  pub balance : Option ℕ

abbrev pub balance_or_zero : Option ℕ → ℕ
balance_or_zero none = 0
balance_or_zero (some b) = b

abbrev pub charge : ℕ → Option ℕ → Option ℕ
charge money none = none
charge money (some b) = some (if leb money b then b - money else b)

abbrev pub assets_of : Items → Option ℕ → Assets
assets_of slots balance = record {
  coins = map entry_coin (money_of slots).money_map;
  balance = balance;
}

unfoldable pub remove_money : (ℕ → Bool) → Items → Option ℕ → ℕ → Bool × Assets
remove_money can_remove slots balance money =
    let purse = money_of slots in
    let payment = pay can_remove money purse.money_map in
    if money == 0
    then (true, assets_of slots balance)
    else if ltb (add64 purse.money_count (balance_or_zero balance)) money
    then (false, assets_of slots balance)
    else (
      true,
      record {
        coins = payment.left ++ add_money payment.change;
        balance = charge payment.money balance;
      },
    )
