-- ===== src/Money/Examples.antt =====
-- Runs of `addMoney` and `removeMoney` of src/game.cpp.
use otservbr_global.Common.{
  ℕ, ◌+◌, ◌-◌, ◌≤◌, ◌<◌, ◌≡◌, refl, Bool, true, false, none, some, [], ◌∷◌, arith, All,
}
use otservbr_global.Container.Iterator.{tally}
use otservbr_global.Container.{Thing, Box, simple, holder, Items, no_items, more_items}
use otservbr_global.Money.{
  gold_coin, platinum_coin, crystal_coin, Coin, unit_of, create_coin, crystal_stacks,
  coins_unless_none, add_money, emplace, visit, gather, money_of, remove_coins, pay, charge,
  assets_of, remove_money,
}
use otservbr_global.Money.Change.{coins_worth, IsStack, add_money_lem}
use otservbr_global.Money.Gathering.{worth_of}
use otservbr_global.Money.Paying.{AreRemovable, remove_money_lem, remove_money_twice}

abbrev coins : ℕ → ℕ → ℕ → Thing
coins address id count = record {
  address = address;
  id = id;
  count = count;
  weight_attribute = none;
}

abbrev bag : Box
bag = record { max_size = 8; total_weight = 0; unlocked = true; pagination = false }

-- A platinum coin in a slot, a bag with thirty gold coins, and a rope.
abbrev slots : Items
slots =
    more_items (holder (coins 1 1988 1) bag (more_items (simple (coins 2 gold_coin 30)) no_items)) (
      more_items (simple (coins 3 platinum_coin 2)) (more_items (simple (coins 4 2120 1)) no_items))

abbrev always : ℕ → Bool
always a = true

abbrev coin : ℕ → ℕ → Coin
coin id count = record { id = id; count = count }

-- Fifty come from the gold coins and a platinum coin, which gives eighty of change. Who has 230 in coins
-- and 100 in the bank pays 300 from both, and 50 with the coins and once more with the rest of it from
-- the bank.
runs :
    (add_money 20345 ≡ coin crystal_coin 2 ∷ coin platinum_coin 3 ∷ coin gold_coin 45 ∷ [])
    × (remove_money always slots none 50
        ≡ (true, record { coins = coin platinum_coin 1 ∷ coin gold_coin 80 ∷ []; balance = none }))
    × (remove_money always slots none 231 ≡ (false, assets_of slots none))
    × (remove_money always slots (some 100) 300 ≡ (true, record { coins = []; balance = some 30 }))
    × (remove_money always slots (some 100) 50 ≡ (
      true,
      record { coins = coin platinum_coin 1 ∷ coin gold_coin 80 ∷ []; balance = some 80 },
    ))
unfolding add_money crystal_stacks coins_unless_none create_coin remove_money pay remove_coins
    money_of gather visit emplace unit_of tally
runs = (refl, refl, refl, refl, refl)

slots-AreRemovable : AreRemovable always slots
unfolding money_of gather visit emplace unit_of tally
slots-AreRemovable = (refl, (refl, tt))

slots_worth : worth_of slots ≡ 230
unfolding worth_of unit_of
slots_worth = refl

add_money_lem_example : (coins_worth (add_money 20345) ≡ 20345) × All IsStack (add_money 20345)
add_money_lem_example = add_money_lem 20345 (omega arith)

remove_money_lem_example :
    (worth_of slots + 0 < 50 → remove_money always slots none 50 ≡ (false, assets_of slots none))
    × (worth_of slots < 50
        → 50 ≤ worth_of slots + 0
        → remove_money always slots none 50
          ≡ (true, record { coins = []; balance = charge (50 - worth_of slots) none }))
    × (50 ≤ worth_of slots
        → ((remove_money always slots none 50).0 ≡ true)
          × (coins_worth (remove_money always slots none 50).1.coins + 50 ≡ worth_of slots))
remove_money_lem_example =
    remove_money_lem always slots none 50 slots-AreRemovable (omega (arith, slots_worth))

remove_money_twice_example :
    (coins_worth (remove_money always slots (some 100) 50).1.coins + 50 ≡ worth_of slots)
    × ((again : ℕ) × (0 < again)
        × (again ≤ 50)
        × ((remove_money always slots (some 100) 50).1.balance ≡ some (100 - again)))
remove_money_twice_example =
    remove_money_twice always slots 100 50 slots-AreRemovable (omega (arith, slots_worth))
      (omega arith) (omega (arith, slots_worth)) (omega arith)
