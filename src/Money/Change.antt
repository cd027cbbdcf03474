-- ===== src/Money/Change.antt =====
-- What the coins of `addMoney` in src/game.cpp are worth.
use otservbr_global.Common.{
  ℕ, zero, suc, ◌+◌, ◌-◌, ◌*◌, ◌/◌, ◌%◌, ◌≤◌, ◌<◌, ◌≡◌, sym, ap, ◌∙◌, inl, inr, List, [], ◌∷◌, ◌++◌,
  arith, ltb, ◌==◌, if◌then◌else◌, Bool-cases, All, All-append, min,
}
use otservbr_global.Common.Words.{u8_mod, u16_mod, u32_mod}
use otservbr_global.Money.{
  gold_coin, platinum_coin, crystal_coin, Coin, unit_of, get_worth, create_coin, crystal_stacks,
  coins_unless_none, add_money,
}

unfoldable pub coins_worth : List Coin → ℕ
coins_worth [] = 0
coins_worth (c ∷ cs) = get_worth c + coins_worth cs

pub coins_worth-append :
    (cs ds : List Coin) → coins_worth (cs ++ ds) ≡ coins_worth cs + coins_worth ds
unfolding coins_worth
coins_worth-append [] ds = omega arith
coins_worth-append (c ∷ cs) ds = omega (arith, coins_worth-append cs ds)

-- A stack that the game makes: some coins, and a hundred at most.
abbrev pub IsStack : Coin → Type 0
IsStack c = (0 < c.count) × (c.count ≤ 100)

create_coin_lem :
    (id count : ℕ)
    → 0 < count
    → count ≤ 100
    → (coins_worth (create_coin id count ∷ []) ≡ count * unit_of id)
      × IsStack (create_coin id count)
unfolding create_coin coins_worth
create_coin_lem id count some_ few =
    let same : (if count % u16_mod == 0 then 1 else count % u16_mod) % u8_mod ≡ count =
      ground (arith, some_, few) in
    (
      ap (λ n. n * unit_of id + 0) same ∙ omega arith,
      (omega (arith, same, some_), omega (arith, same, few)),
    )

coins_unless_none_lem :
    (id count : ℕ)
    → count ≤ 100
    → (coins_worth (coins_unless_none id count) ≡ count * unit_of id)
      × All IsStack (coins_unless_none id count)
unfolding coins_unless_none coins_worth
coins_unless_none_lem id count few = elim (Bool-cases (count == 0)) [
  | inl e ↦
      let zero_coins : count ≡ 0 = ground (arith, e) in
      simp (coins_unless_none, e) (sym (ap (λ n. n * unit_of id) zero_coins ∙ omega arith), tt)
  | inr e ↦
      simp (coins_unless_none, e)
        (let made = create_coin_lem id count (ground (arith, e)) few in (made.0, (made.1, tt)))
]

crystal_stacks_lem :
    (n coins : ℕ)
    → coins ≤ n
    → (coins_worth (crystal_stacks n coins) ≡ coins * 10000) × All IsStack (crystal_stacks n coins)
unfolding crystal_stacks coins_worth unit_of
crystal_stacks_lem zero coins le = (omega (arith, le), tt)
crystal_stacks_lem (suc n) coins le = elim (Bool-cases (ltb 0 coins)) [
  | inr e ↦ rw e (ground (arith, e), tt)
  | inl e ↦
      let rest = crystal_stacks_lem n (coins - min 100 coins) (ground (arith, e, le)) in
      let made = create_coin_lem crystal_coin (min 100 coins) (ground (arith, e)) (ground arith) in
      rw e (omega (arith, rest.0, made.0), (made.1, rest.1))
]

-- Below 2 ^ 32 gold pieces, the new coins are worth exactly the money, in stacks of a hundred at most.
pub add_money_lem :
    (money : ℕ)
    → money < u32_mod
    → (coins_worth (add_money money) ≡ money) × All IsStack (add_money money)
unfolding add_money coins_worth unit_of
add_money_lem money lt =
    let crystals = money / 10000 % u32_mod in
    let below = money - crystals * 10000 % u32_mod in
    let platinum = below / 100 % u16_mod in
    let first = crystal_stacks_lem crystals crystals (omega arith) in
    let second = coins_unless_none_lem platinum_coin platinum (omega (arith, lt)) in
    let third = coins_unless_none_lem gold_coin (below - platinum * 100) (omega (arith, lt)) in
    elim (Bool-cases (money == 0)) [
      | inl e ↦ rw e (ground (arith, e), tt)
      | inr e ↦ rw e (
        coins_worth-append (crystal_stacks crystals crystals) _
            ∙ ap (λ n. coins_worth (crystal_stacks crystals crystals) + n)
                (coins_worth-append (coins_unless_none platinum_coin platinum) _)
            ∙ omega (arith, lt, first.0, second.0, third.0),
        All-append IsStack _ _ first.1 (All-append IsStack _ _ second.1 third.1),
      )
    ]
