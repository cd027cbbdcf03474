-- ===== src/Party/Operations/Examples.antt =====
-- Runs of the party actions of src/game.cpp on a small world.
use otservbr_global.Common.{
  ℕ, ◌≡◌, refl, Bool, true, false, Option, none, some, List, [], ◌∷◌, ◌++◌,
}
use otservbr_global.Party.{
  Player, Party, World, Env, write_at, has, erase, remove_all, set_party, add_party_invitation,
  remove_party_invitation, on_player, on_players, put_party, update_shared_experience, clear_found,
  clear_player_points, set_shared_experience, can_enable, is_empty_party,
}
use otservbr_global.Party.Consistent.{IsConsistent}
use otservbr_global.Party.Operations.{
  Action, invite, join, revoke, leave, enable_shared, new_party, dissolve, disband,
  pass_party_leadership, replace_leader, take_leave, leave_party, join_party, remove_invite,
  invite_player, with_party, is_inviting, invite_from, player_invite_to_party, join_from,
  player_join_party, from_party, player_revoke_party_invitation, is_partner,
  player_pass_party_leadership, player_leave_party, player_enable_shared_party_experience, perform,
}
use otservbr_global.Party.Operations.Histories.{Reachable, start, act, perform-IsConsistent}

abbrev newcomer : Player
newcomer = record {
  is_online = true;
  party = none;
  invite_party_list = [];
  level = 20;
  position = record { x = 100; y = 100; z = 7 };
  not_gain_in_fight = true;
  in_fight = false;
  in_protection_zone = some true;
}

abbrev town : World
town = record { players = λ p. newcomer; parties = λ q. none; next_party = 0 }

abbrev calm : Env
calm = record {
  on_disband = λ q. true;
  on_leave = λ q p. true;
  on_join = λ q p. true;
  now = 9;
  pz_locked = 60000;
}

-- The world after some actions, as long as each of them returns one.
abbrev run : List Action → World → Option World
run [] w = some w
run (a ∷ more) w = elim (perform calm a w) [ none ↦ none | some w' ↦ run more w' ]

abbrev founding : List Action
founding = invite 1 2 ∷ join 2 1 ∷ []

-- The leader, the members, the invitees and the state of the shared experience of the first party.
abbrev report : Option World → Option (ℕ × List ℕ × List ℕ × Bool)
report none = none
report (some w) = elim (w.parties 0) [
  | none ↦ none
  | some t ↦ some (t.leader, t.member_list, t.invite_list, t.shared_exp_enabled)
]

-- A party is founded, shares its experience, passes its leadership on when the leader leaves, and ends
-- with its last member or its last invitation.
runs :
    (report (run founding town) ≡ some (1, 2 ∷ [], [], false))
    × (report (run (founding ++ (invite 1 3 ∷ enable_shared 1 true ∷ [])) town)
        ≡ some (1, 2 ∷ [], 3 ∷ [], true))
    × (report (run (founding ++ (invite 1 3 ∷ join 3 1 ∷ leave 1 ∷ [])) town)
        ≡ some (2, 3 ∷ [], [], false))
    × (report (run (founding ++ (leave 2 ∷ [])) town) ≡ none)
    × (report (run (invite 1 2 ∷ revoke 1 2 ∷ []) town) ≡ none)
unfolding new_party dissolve disband pass_party_leadership replace_leader take_leave leave_party
    join_party remove_invite invite_player with_party is_inviting invite_from player_invite_to_party
    join_from player_join_party from_party player_revoke_party_invitation is_partner
    player_pass_party_leadership player_leave_party player_enable_shared_party_experience perform
    write_at has erase remove_all set_party add_party_invitation remove_party_invitation on_player
    on_players put_party update_shared_experience clear_found clear_player_points
    set_shared_experience can_enable is_empty_party
runs = (refl, refl, refl, refl, refl)

abbrev or_town : Option World → World
or_town none = town
or_town (some w) = w

abbrev one_party : World
one_party = or_town (perform calm (invite 1 2) town)

abbrev joined : World
joined = or_town (perform calm (join 2 1) one_party)

abbrev pair : Party
pair = record {
  leader = 1;
  member_list = 2 ∷ [];
  invite_list = [];
  ticks_map = λ p. none;
  shared_exp_active = false;
  shared_exp_enabled = false;
}

one_party-Reachable : Reachable one_party
unfolding new_party dissolve disband pass_party_leadership replace_leader take_leave leave_party
    join_party remove_invite invite_player with_party is_inviting invite_from player_invite_to_party
    join_from player_join_party from_party player_revoke_party_invitation is_partner
    player_pass_party_leadership player_leave_party player_enable_shared_party_experience perform
    write_at has erase remove_all set_party add_party_invitation remove_party_invitation on_player
    on_players put_party update_shared_experience clear_found clear_player_points
one_party-Reachable =
    act calm (invite 1 2) town one_party (start (λ p. newcomer) (λ p. (refl, refl))) (λ q. refl)
      refl

joined-Reachable : Reachable joined
unfolding new_party dissolve disband pass_party_leadership replace_leader take_leave leave_party
    join_party remove_invite invite_player with_party is_inviting invite_from player_invite_to_party
    join_from player_join_party from_party player_revoke_party_invitation is_partner
    player_pass_party_leadership player_leave_party player_enable_shared_party_experience perform
    write_at has erase remove_all set_party add_party_invitation remove_party_invitation on_player
    on_players put_party update_shared_experience clear_found clear_player_points
joined-Reachable = act calm (join 2 1) one_party joined one_party-Reachable (λ q. refl) refl

joined-pair : joined.parties 0 ≡ some pair
unfolding new_party dissolve disband pass_party_leadership replace_leader take_leave leave_party
    join_party remove_invite invite_player with_party is_inviting invite_from player_invite_to_party
    join_from player_join_party from_party player_revoke_party_invitation is_partner
    player_pass_party_leadership player_leave_party player_enable_shared_party_experience perform
    write_at has erase remove_all set_party add_party_invitation remove_party_invitation on_player
    on_players put_party update_shared_experience clear_found clear_player_points
joined-pair = refl

perform-IsConsistent_example :
    (w' : World) × (perform calm (join 2 1) one_party ≡ some w') × IsConsistent w'
perform-IsConsistent_example =
    perform-IsConsistent calm (join 2 1) one_party one_party-Reachable (λ q. refl)
