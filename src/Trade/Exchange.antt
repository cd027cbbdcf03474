-- ===== src/Trade/Exchange.antt =====
-- What an exchange of items in src/game.cpp takes: both players' word, the script's and every test.
use otservbr_global.Common.{
  ℕ, ◌≡◌, refl, sym, ap, ◌∙◌, ◌⊎◌, inl, inr, true, ◌&&◌, ◌||◌, Option, none, some, List, [], ◌∷◌,
  arith, if◌then◌else◌, Bool-cases, Option-cases,
}
use otservbr_global.Trade.{
  accepted, Trades, is_acknowledged, is_initiated, is_accepted, is_transferring, free_trader,
  set_trader, Scene, Move, move, exchange, transfer, accept_with, player_accept_trade,
}
use otservbr_global.Trade.Fair.{IsFair, PairStep-IsFair}
use otservbr_global.Trade.Clearing.{set_trader-same, set_trader-other}
use otservbr_global.Trade.Accepting.{transfer-IsFair, accepting-IsFair}

-- Both items go to the other player, as far as the second move succeeds.
abbrev pub moves_of : Scene → ℕ → ℕ → ℕ → ℕ → List Move
moves_of s p q i j = if s.second_moves then move i q ∷ move j p ∷ [] else move i q ∷ []

-- An acceptance that moves items, with the trades and the moves that it gives.
pub record Exchanges (s : Scene) (p : ℕ) (w : Trades) (out : Trades × List Move) : Type 0 where
  pub other : ℕ
  pub given : ℕ
  pub taken : ℕ
  pub partner_is : (w.traders p).partner ≡ some other
  pub gives : (w.traders p).item ≡ some given
  pub takes : (w.traders other).item ≡ some taken
  pub agreed : is_accepted ((w.traders other).state) ≡ true
  pub allowed : s.script ≡ true
  pub fits : (s.can_add other given ≡ true) × (s.can_add p taken ≡ true)
  pub moved : out.1 ≡ moves_of s p other given taken
  pub settled : (out.0.traders p ≡ free_trader) × (out.0.traders other ≡ free_trader)

exchange-cases :
    (s : Scene) (p q : ℕ) (o o' : Option ℕ)
    → (exchange s p q o o' ≡ [])
      ⊎ ((i : ℕ) × (j : ℕ) × (o ≡ some i)
          × (o' ≡ some j)
          × (s.can_add q i ≡ true)
          × (s.can_add p j ≡ true)
          × (exchange s p q o o' ≡ moves_of s p q i j))
unfolding exchange
exchange-cases s p q none o = inl refl
exchange-cases s p q (some i) none = inl refl
exchange-cases s p q (some i) (some j) =
    elim (Bool-cases
      (s.can_add q i && (s.can_add p j && (s.can_remove i && (s.can_remove j && s.first_moves))))) [
        | inl e ↦ inr (i, j, refl, refl, ground (arith, e), ground (arith, e), simp (exchange, e))
        | inr e ↦ inl (simp (exchange, e))
      ]

-- Either no item moves, or both offered items do.
abbrev Outcome : Scene → ℕ → Trades → Trades × List Move → Type 0
Outcome s p w out = (out.1 ≡ []) ⊎ Exchanges s p w out

accept_with-Outcome :
    (s : Scene) (p q : ℕ) (w : Trades)
    → IsFair w
    → (w.traders p).partner ≡ some q
    → is_acknowledged ((w.traders p).state) || is_initiated ((w.traders p).state) ≡ true
    → Outcome s p w (accept_with s p q w)
unfolding accept_with
accept_with-Outcome s p q w h partner open_ =
    let x' = record (w.traders p) { state = accepted } in
    let w' = set_trader p x' w in
    let step = accepting-IsFair w p q h partner open_ in
    let fair : IsFair w' = PairStep-IsFair w p q w' h step in
    let at_p : w'.traders p ≡ x' = set_trader-same p x' w in
    let at_q : w'.traders q ≡ w.traders q = set_trader-other p q x' w (λ e. step.two (sym e)) in
    elim (Bool-cases (is_accepted ((w'.traders q).state))) [
      | inr e ↦ simp (accept_with, e) (inl refl)
      | inl e ↦ elim (Bool-cases s.script) [
        | inr e' ↦ simp (accept_with, e, e') (inl refl)
        | inl e' ↦ simp (accept_with, e, e') (carried w' fair at_p at_q e e')
      ]
    ]
  where
    carried :
        (w' : Trades)
        → IsFair w'
        → w'.traders p ≡ record (w.traders p) { state = accepted }
        → w'.traders q ≡ w.traders q
        → is_accepted ((w'.traders q).state) ≡ true
        → s.script ≡ true
        → Outcome s p w (transfer s p q w')
    carried w' fair at_p at_q e e' =
        let done =
          transfer-IsFair s p q w' fair (ap (λ u. u.partner) at_p ∙ partner)
            (ap (λ u. is_transferring u.state) at_p) in
        let moves : (transfer s p q w').1 ≡ exchange s p q (w'.traders p).item (w'.traders q).item =
          unfold transfer in refl in
        elim (exchange-cases s p q ((w'.traders p).item) ((w'.traders q).item)) [
          | inl nothing ↦ inl (moves ∙ nothing)
          | inr (i, j, gives, takes, fit, fit', out) ↦ inr (record {
            other = q;
            given = i;
            taken = j;
            partner_is = partner;
            gives = ap (λ u. u.item) (sym at_p) ∙ gives;
            takes = ap (λ u. u.item) (sym at_q) ∙ takes;
            agreed = ap (λ u. is_accepted u.state) (sym at_q) ∙ e;
            allowed = e';
            fits = (fit, fit');
            moved = moves ∙ out;
            settled = (done.1, done.2);
          })
        ]

-- An acceptance moves no item, or it moves both offered items to the other player each, as far as the
-- second move succeeds; that takes a partner who has accepted before, an item on both sides, the
-- script's word and room for both, and both players are free of the trade afterwards.
pub player_accept_trade-Outcome :
    (s : Scene) (p : ℕ) (w : Trades)
    → IsFair w
    → ((player_accept_trade s p w).1 ≡ []) ⊎ Exchanges s p w (player_accept_trade s p w)
unfolding player_accept_trade
player_accept_trade-Outcome s p w h = elim (Bool-cases (s.is_online p)) [
  | inr e ↦ simp (player_accept_trade, e) (inl refl)
  | inl e ↦
      elim (Bool-cases
        (is_acknowledged ((w.traders p).state) || is_initiated ((w.traders p).state))) [
          | inr e' ↦ simp (player_accept_trade, e, e') (inl refl)
          | inl e' ↦ elim (Option-cases ((w.traders p).partner)) [
            | inl o ↦ simp (player_accept_trade, e, e', o) (inl refl)
            | inr t ↦ elim (Bool-cases s.can_throw) [
              | inr c ↦ simp (player_accept_trade, e, e', t.1, c) (inl refl)
              | inl c ↦
                  simp (player_accept_trade, e, e', t.1, c) (accept_with-Outcome s p t.0 w h t.1 e')
            ]
          ]
        ]
]
