-- ===== src/Party/Operations/Histories.antt =====
-- Histories of a server's parties: the player actions of src/game.cpp in any order, while the players
-- walk, fight, log in and, once they have left their party, log out.
use otservbr_global.Common.{ℕ, ◌≡◌, refl, ap, ◌∙◌, true, false, Option, none, some, []}
use otservbr_global.Party.{Player, World, Env, has, points_to}
use mathlib.Core.Path.{subst}
use otservbr_global.Party.Consistent.{IsConsistent}
use otservbr_global.Party.Operations.{
  Action, invite, join, revoke, pass_leadership, leave, enable_shared, perform,
}
use otservbr_global.Party.Operations.Following.{Returns}
use otservbr_global.Party.Operations.Actions.{
  player_invite_to_party-Returns, player_join_party-Returns, player_revoke_party_invitation-Returns,
  player_pass_party_leadership-Returns, player_leave_party-Returns,
  player_enable_shared_party_experience-Returns,
}

-- No script forbids that an empty party ends.
abbrev pub IsWilling : Env → Type 0
IsWilling env = (q : ℕ) → env.on_disband q ≡ true

-- A change of a player that leaves the party alone; only who has neither a party nor an invitation is
-- gone afterwards.
pub record Unrelated (x y : Player) : Type 0 where
  pub same_party : y.party ≡ x.party
  pub same_invites : y.invite_party_list ≡ x.invite_party_list
  pub still_here : y.is_online ≡ false → (x.party ≡ none) × (x.invite_party_list ≡ [])

-- The worlds that a server comes to.
pub data Reachable : World → Type 0 where
  start :
      (players : ℕ → Player)
      → ((p : ℕ) → (((players p).party ≡ none) × ((players p).invite_party_list ≡ [])))
      → Reachable (record { players = players; parties = λ q. none; next_party = 0 })
  act :
      (env : Env) (a : Action) (w w' : World)
      → Reachable w
      → IsWilling env
      → perform env a w ≡ some w'
      → Reachable w'
  others :
      (w : World) (players' : ℕ → Player)
      → Reachable w
      → ((p : ℕ) → Unrelated (w.players p) (players' p))
      → Reachable (record w { players = players' })

pub perform-Returns :
    (env : Env) (a : Action) (w : World)
    → IsConsistent w
    → IsWilling env
    → Returns (perform env a w)
unfolding perform
perform-Returns env (invite p invited) w h willing = player_invite_to_party-Returns w p invited h
perform-Returns env (join p leader) w h willing = player_join_party-Returns env w p leader h
perform-Returns env (revoke p invited) w h willing =
    player_revoke_party_invitation-Returns env w p invited h
perform-Returns env (pass_leadership p new_leader) w h willing =
    player_pass_party_leadership-Returns env w p new_leader h
perform-Returns env (leave p) w h willing = player_leave_party-Returns env w p h willing
perform-Returns env (enable_shared p active) w h willing =
    player_enable_shared_party_experience-Returns env w p active h

start-IsConsistent :
    (players : ℕ → Player)
    → ((p : ℕ) → (((players p).party ≡ none) × ((players p).invite_party_list ≡ [])))
    → IsConsistent (record { players = players; parties = λ q. none; next_party = 0 })
start-IsConsistent players free = record {
  belongs = λ p q. ap (λ o. points_to o q) (free p).0;
  invited = λ p q. ap (has q) (free p).1 ∙ has-nil q;
  distinct = λ q. tt;
  present = λ p off. free p;
  fresh = λ q le. refl;
}
  where
    has-nil : (q : ℕ) → has q [] ≡ false
    has-nil q = unfold has in refl

others-IsConsistent :
    (w : World) (players' : ℕ → Player)
    → IsConsistent w
    → ((p : ℕ) → Unrelated (w.players p) (players' p))
    → IsConsistent (record w { players = players' })
others-IsConsistent w players' h same = record {
  belongs = λ p q. ap (λ o. points_to o q) (same p).same_party ∙ h.belongs p q;
  invited = λ p q. ap (has q) (same p).same_invites ∙ h.invited p q;
  distinct = h.distinct;
  present = λ p off.
      let gone = (same p).still_here off in
      ((same p).same_party ∙ gone.0, (same p).same_invites ∙ gone.1);
  fresh = h.fresh;
}

-- In every world that a server comes to, the players and the parties agree.
pub Reachable-IsConsistent : (w : World) → Reachable w → IsConsistent w
Reachable-IsConsistent _ (start players free) = start-IsConsistent players free
Reachable-IsConsistent w' (act env a w _ r willing e) =
    subst Returns e (perform-Returns env a w (Reachable-IsConsistent w r) willing)
Reachable-IsConsistent _ (others w players' r same) =
    others-IsConsistent w players' (Reachable-IsConsistent w r) same

-- In a world that a server comes to, while no script forbids that an empty party ends, every action of
-- a player follows only pointers to parties that are there, and afterwards a player points to a party
-- exactly if the party has that player as its leader or a member, holds an invitation exactly if the
-- party lists it, no party lists anybody twice, and nobody who is gone is listed.
pub perform-IsConsistent :
    (env : Env) (a : Action) (w : World)
    → Reachable w
    → IsWilling env
    → (w' : World) × (perform env a w ≡ some w') × IsConsistent w'
perform-IsConsistent env a w r willing =
    returned (perform env a w) (perform-Returns env a w (Reachable-IsConsistent w r) willing)
  where
    returned : (o : Option World) → Returns o → (w' : World) × (o ≡ some w') × IsConsistent w'
    returned none h = elim h [ ]
    returned (some w') h = (w', refl, h)
