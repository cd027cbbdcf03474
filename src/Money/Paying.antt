-- ===== src/Money/Paying.antt =====
-- What is paid by `removeMoney` of src/game.cpp.
use otservbr_global.Common.{
  ℕ, ◌+◌, ◌-◌, ◌*◌, ◌/◌, ◌≤◌, ◌<◌, ◌≡◌, refl, sym, ap, ◌∙◌, ◌⊎◌, inl, inr, Bool, true, false,
  Option, some, List, [], ◌∷◌, map, arith, ltb, leb, ◌==◌, Bool-cases, All,
}
use mathlib.Core.Path.{subst}
use native.Mathlib.Nat.{mul-div_cancel_left}
use otservbr_global.Common.Words.{u64_mod, add64}
use otservbr_global.Container.{Items}
use otservbr_global.Money.{
  gold_coin, platinum_coin, crystal_coin, Coin, unit_of, get_worth, remove_coins, entry_coin,
  Payment, pay, balance_or_zero, charge, assets_of, add_money, money_of, remove_money,
}
use otservbr_global.Money.Change.{coins_worth, coins_worth-append, add_money_lem}
use otservbr_global.Money.Gathering.{worth_of, IsEntry, money_of-Counts}

-- The kinds of coins.
unit_cases :
    (id : ℕ) → (unit_of id ≡ 0) ⊎ (unit_of id ≡ 1) ⊎ (unit_of id ≡ 100) ⊎ (unit_of id ≡ 10000)
unfolding unit_of
unit_cases id = elim (Bool-cases (id == gold_coin)) [
  | inl e ↦ rw e (inr (inl refl))
  | inr e ↦ elim (Bool-cases (id == platinum_coin)) [
    | inl e' ↦ rw (e, e') (inr (inr (inl refl)))
    | inr e' ↦ elim (Bool-cases (id == crystal_coin)) [
      | inl d ↦ rw (e, e', d) (inr (inr (inr refl)))
      | inr d ↦ rw (e, e', d) (inl refl)
    ]
  ]
]

-- A stack of `n` coins of a kind that is worth more than the money: as many coins go as make it up, and
-- the rest of their worth comes back.
record Breaks (n money unit : ℕ) : Type 0 where
  fits : (money + (unit - 1)) / unit ≤ n
  covers :
      (n - (money + (unit - 1)) / unit) * unit
        + (unit * ((money + (unit - 1)) / unit) - money)
        + money
      ≡ n * unit
  small : unit * ((money + (unit - 1)) / unit) - money < unit
  bounded : (0 < unit) × (unit ≤ 10000)

breaks : (c : Coin) (money : ℕ) → money < get_worth c → Breaks c.count money (unit_of c.id)
breaks c money lt = elim (unit_cases c.id) [
  | inl e ↦ absurd (omega (arith, lt, ap (λ u. c.count * u) e))
  | inr (inl e) ↦ subst (Breaks c.count money) (sym e) (
      let h : money < c.count * 1 = omega (arith, lt, ap (λ u. c.count * u) e) in
      record {
        fits = omega (arith, h);
        covers = omega (arith, h);
        small = omega (arith, h);
        bounded = omega arith;
      })
  | inr (inr (inl e)) ↦ subst (Breaks c.count money) (sym e) (
      let h : money < c.count * 100 = omega (arith, lt, ap (λ u. c.count * u) e) in
      record {
        fits = omega (arith, h);
        covers = omega (arith, h);
        small = omega (arith, h);
        bounded = omega arith;
      })
  | inr (inr (inr e)) ↦ subst (Breaks c.count money) (sym e) (
      let h : money < c.count * 10000 = omega (arith, lt, ap (λ u. c.count * u) e) in
      record {
        fits = omega (arith, h);
        covers = omega (arith, h);
        small = omega (arith, h);
        bounded = omega arith;
      })
]

remove_coins-whole :
    (can_remove : ℕ → Bool) (a : ℕ) (c : Coin)
    → can_remove a ≡ true
    → remove_coins can_remove a c.count c ≡ []
unfolding remove_coins
remove_coins-whole can_remove a c h =
    let same : (c.count == c.count) ≡ true = ground arith in simp (remove_coins, h, same) refl

-- What is left of a stack.
remove_coins-worth :
    (can_remove : ℕ → Bool) (a n : ℕ) (c : Coin)
    → can_remove a ≡ true
    → n ≤ c.count
    → coins_worth (remove_coins can_remove a n c) ≡ (c.count - n) * unit_of c.id
unfolding remove_coins coins_worth
remove_coins-worth can_remove a n c h le = elim (Bool-cases (n == c.count)) [
  | inl e ↦
      let none_left : c.count - n ≡ 0 = ground (arith, e) in
      simp (remove_coins, h, e) (sym (ap (λ k. k * unit_of c.id) none_left ∙ omega arith))
  | inr e ↦ simp (remove_coins, h, e) (omega arith)
]

unit_of_entry : (w : ℕ) (c : Coin) → (w ≡ get_worth c) × (0 < w) → w / c.count ≡ unit_of c.id
unit_of_entry w c h = elim (Bool-cases (c.count == 0)) [
  | inl e ↦
      let none_there : c.count ≡ 0 = ground (arith, e) in
      absurd (omega (arith, h.0, h.1, ap (λ n. n * unit_of c.id) none_there))
  | inr e ↦ ap (λ n. n / c.count) h.0 ∙ mul-div_cancel_left (unit_of c.id) (ground (arith, e))
]

-- What the loop comes to, where all coins may be removed.
record Pays (money total : ℕ) (p : Payment) : Type 0 where
  short : total < money → (p.money ≡ money - total) × (p.change ≡ 0) × (p.left ≡ [])
  enough :
      money ≤ total
      → (coins_worth p.left + p.change + money ≡ total)
        × (0 < p.money)
        × (p.money ≤ money)
        × (p.change < 10000)

pay-Pays :
    (can_remove : ℕ → Bool) (money : ℕ) (m : List (ℕ × Coin × ℕ))
    → 0 < money
    → All IsEntry m
    → All (λ e. can_remove e.2 ≡ true) m
    → Pays money (coins_worth (map entry_coin m)) (pay can_remove money m)
unfolding pay coins_worth
pay-Pays can_remove money [] pos hs os = record {
  short = λ lt. (omega arith, refl, refl);
  enough = λ le. absurd (omega (arith, pos, le));
}
pay-Pays can_remove money ((w, c, a) ∷ m) pos hs os = elim (Bool-cases (ltb w money)) [
  | inl e ↦
      let rest = pay-Pays can_remove (money - w) m (ground (arith, e)) hs.1 os.1 in
      let gone = remove_coins-whole can_remove a c os.0 in
      rw (e, gone)
        (record {
          short = λ lt.
              let r = rest.short (ground (arith, e, lt, hs.0.0)) in
              (ground (arith, r.0, hs.0.0), r.1, r.2);
          enough = λ le.
              let r = rest.enough (ground (arith, e, le, hs.0.0)) in
              (ground (arith, e, r.0, hs.0.0), r.1, ground (arith, r.2), r.3);
        })
  | inr e ↦ elim (Bool-cases (ltb money w)) [
    | inr e' ↦
        let gone = remove_coins-whole can_remove a c os.0 in
        rw (e, e', gone)
          (record {
            short = λ lt. absurd (ground (arith, e, e', lt, hs.0.0));
            enough = λ le. (ground (arith, e, e', hs.0.0), pos, omega arith, omega arith);
          })
    | inl e' ↦
        let b = breaks c money (ground (arith, e', hs.0.0)) in
        let unit : w / c.count ≡ unit_of c.id = unit_of_entry w c hs.0 in
        let left =
          remove_coins-worth can_remove a ((money + (unit_of c.id - 1)) / unit_of c.id) c os.0
            b.fits in
        rw (e, e', unit)
          (record {
            short = λ lt. absurd (ground (arith, e', lt, hs.0.0));
            enough = λ le. (
              omega (
                arith,
                coins_worth-append
                    (remove_coins can_remove a ((money + (unit_of c.id - 1)) / unit_of c.id) c)
                    (map entry_coin m),
                left,
                b.covers,
                hs.0.0,
              ),
              pos,
              omega arith,
              omega (arith, b.small, b.bounded),
            );
          })
  ]
]

-- All coins that are carried may be removed.
abbrev pub AreRemovable : (ℕ → Bool) → Items → Type 0
AreRemovable can_remove slots = All (λ e. can_remove e.2 ≡ true) (money_of slots).money_map

paid_by_loop :
    (can_remove : ℕ → Bool) (slots : Items) (money : ℕ)
    → AreRemovable can_remove slots
    → 0 < money
    → Pays money (worth_of slots) (pay can_remove money (money_of slots).money_map)
paid_by_loop can_remove slots money os pos =
    let purse = money_of-Counts slots in
    subst (λ n. Pays money n (pay can_remove money (money_of slots).money_map)) purse.worth
      (pay-Pays can_remove money (money_of slots).money_map pos purse.entries os)

-- The test of the assets.
can_pay :
    (slots : Items) (balance : Option ℕ) (money : ℕ)
    → worth_of slots + balance_or_zero balance < u64_mod
    → ltb (add64 (money_of slots).money_count (balance_or_zero balance)) money
      ≡ ltb (worth_of slots + balance_or_zero balance) money
can_pay slots balance money lt =
    ap (λ n. ltb n money) (omega (arith, lt, (money_of-Counts slots).counted))

-- Where all coins may be removed and the assets are worth less than 2 ^ 64: who has too little keeps all;
-- whose coins are too few loses them, and the rest is taken from the bank; and otherwise what is left of
-- the coins and the change are worth the coins of before less the money.
pub remove_money_lem :
    (can_remove : ℕ → Bool) (slots : Items) (balance : Option ℕ) (money : ℕ)
    → AreRemovable can_remove slots
    → worth_of slots + balance_or_zero balance < u64_mod
    → (worth_of slots + balance_or_zero balance < money
        → remove_money can_remove slots balance money ≡ (false, assets_of slots balance))
      × (worth_of slots < money
          → money ≤ worth_of slots + balance_or_zero balance
          → remove_money can_remove slots balance money
            ≡ (true, record { coins = []; balance = charge (money - worth_of slots) balance }))
      × (money ≤ worth_of slots
          → ((remove_money can_remove slots balance money).0 ≡ true)
            × (coins_worth (remove_money can_remove slots balance money).1.coins + money
                ≡ worth_of slots))
unfolding remove_money add_money
remove_money_lem can_remove slots balance money os lt =
    let test = can_pay slots balance money lt in
    let purse = money_of-Counts slots in
    elim (Bool-cases (money == 0)) [
      | inl e ↦ rw e (
        λ poor. absurd (ground (arith, e, poor)),
        λ few le. absurd (ground (arith, e, few)),
        λ le. (refl, ground (arith, e, purse.worth)),
      )
      | inr e ↦
          let p = paid_by_loop can_remove slots money os (ground (arith, e)) in
          elim (Bool-cases (ltb (worth_of slots + balance_or_zero balance) money)) [
            | inl e' ↦
                rw (e, test, e')
                  (
                    λ poor. refl,
                    λ few le. absurd (ground (arith, e', le)),
                    λ le. absurd (ground (arith, e', le)),
                  )
            | inr e' ↦
                rw (e, test, e')
                  (
                    λ poor. absurd (ground (arith, e', poor)),
                    λ few le. (let r = p.short few in rw (r.0, r.1, r.2) refl),
                    λ le. (
                      refl,
                      omega (
                        arith,
                        coins_worth-append (pay can_remove money (money_of slots).money_map).left
                            (add_money (pay can_remove money (money_of slots).money_map).change),
                        (add_money_lem (pay can_remove money (money_of slots).money_map).change
                            (omega (arith, (p.enough le).3))).0,
                        (p.enough le).0,
                      ),
                    ),
                  )
          ]
    ]

-- Where the coins are enough and the bank has as much too, the bank is charged besides: the coins are
-- worth the money less, and some of the money, or all of it, goes from the balance once more.
pub remove_money_twice :
    (can_remove : ℕ → Bool) (slots : Items) (saved money : ℕ)
    → AreRemovable can_remove slots
    → worth_of slots + saved < u64_mod
    → 0 < money
    → money ≤ worth_of slots
    → money ≤ saved
    → (coins_worth (remove_money can_remove slots (some saved) money).1.coins + money
        ≡ worth_of slots)
      × ((again : ℕ) × (0 < again)
          × (again ≤ money)
          × ((remove_money can_remove slots (some saved) money).1.balance ≡ some (saved - again)))
unfolding remove_money
remove_money_twice can_remove slots saved money os lt pos le rich =
    let p = (paid_by_loop can_remove slots money os pos).enough le in
    let due : (money == 0) ≡ false = ground (arith, pos) in
    let test = can_pay slots (some saved) money lt in
    let able : ltb (worth_of slots + saved) money ≡ false = ground (arith, le) in
    let again = (pay can_remove money (money_of slots).money_map).money in
    let charged : leb again saved ≡ true = ground (arith, p.2, rich) in
    (
      ((remove_money_lem can_remove slots (some saved) money os lt).2 le).1,
      (again, p.1, p.2, rw (due, test, able, charged) refl),
    )
