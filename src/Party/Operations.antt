-- ===== src/Party/Operations.antt =====
-- The operations of src/party.cpp on a party `t` at the address `q`, which the caller has followed,
-- and the player actions of src/game.cpp and src/player.cpp around them.
pub mod Everyone
pub mod Parting
pub mod Dissolving
pub mod Leadership
pub mod LastLeader
pub mod Leaving
pub mod Inviting
pub mod Following
pub mod Actions
pub mod Histories
mod Examples
use otservbr_global.Common.{
  ℕ, ◌+◌, Bool, true, false, not, ◌&&◌, ◌||◌, Option, none, some, List, [], ◌∷◌, ◌++◌, ◌==◌,
  if◌then◌else◌,
}
use otservbr_global.Party.{
  Party, World, Env, has, erase, is_empty, points_to, set_party, add_party_invitation,
  remove_party_invitation, on_player, on_players, put_party, is_empty_party,
  update_shared_experience, clear_player_points, set_shared_experience,
}

-- The constructor, at a fresh address.
unfoldable pub new_party : ℕ → World → World
new_party leader w =
    let q = w.next_party in
    record (on_player leader (set_party (some q)) (
      put_party q
        (some (record {
          leader = leader;
          member_list = [];
          invite_list = [];
          ticks_map = λ p. none;
          shared_exp_active = false;
          shared_exp_enabled = false;
        }))
        w)) { next_party = q + 1 }

-- What `disband` does once the scripts have let it: the leader, the invitees and the members lose the
-- party, which is deleted.
unfoldable pub dissolve : ℕ → Party → World → World
dissolve q t w = put_party q none (
    on_players t.member_list (set_party none) (
      on_players t.invite_list (remove_party_invitation q) (on_player t.leader (set_party none) w)))

unfoldable pub disband : Env → ℕ → Party → World → World
disband env q t w = if env.on_disband q then dissolve q t w else w

unfoldable pub pass_party_leadership : Env → World → ℕ → ℕ → Party → Bool × Party
pass_party_leadership env w q p t =
    if (t.leader == p) || not (points_to ((w.players p).party) q) then (false, t) else (
      true,
      update_shared_experience env w
          (record t { leader = p; member_list = t.leader ∷ erase p t.member_list }),
    )

-- Whether the party loses its leader, and the party with the leadership passed on otherwise.
unfoldable pub replace_leader : Env → World → ℕ → Party → List ℕ → Bool × Party
replace_leader env w q t [] = (true, t)
replace_leader env w q t (front ∷ others) =
    if is_empty others && is_empty t.invite_list
    then (true, t)
    else (false, (pass_party_leadership env w q front t).1)

-- After the question of the leadership.
unfoldable pub take_leave : Env → ℕ → ℕ → World → Bool × Party → World
take_leave env q p w (missing_leader, t) =
    let w' = on_player p (set_party none) w in
    let t' =
      clear_player_points env w' p
        (update_shared_experience env w' (record t { member_list = erase p t.member_list })) in
    let w'' = put_party q (some t') w' in
    if missing_leader || is_empty_party t' then disband env q t' w'' else w''

unfoldable pub leave_party : Env → ℕ → ℕ → Party → World → Bool × World
leave_party env q p t w =
    if not (points_to ((w.players p).party) q) && not (t.leader == p)
    then (false, w)
    else if not (env.on_leave q p)
    then (false, w)
    else (
      true,
      take_leave env q p w
          (if t.leader == p then replace_leader env w q t t.member_list else (false, t)),
    )

unfoldable pub join_party : Env → ℕ → ℕ → Party → World → Bool × World
join_party env q p t w =
    if not (env.on_join q p)
    then (false, w)
    else if not (has p t.invite_list)
    then (false, w)
    else (let w' = on_player p (λ x. remove_party_invitation q (set_party (some q) x)) w in
        let t' = record t {
          invite_list = erase p t.invite_list;
          member_list = t.member_list ++ (p ∷ []);
        } in
        (true, put_party q (some (update_shared_experience env w' t')) w'))

unfoldable pub remove_invite : Env → ℕ → ℕ → Bool → Party → World → Bool × World
remove_invite env q p remove_from_player t w =
    if not (has p t.invite_list)
    then (false, w)
    else (let t' = record t { invite_list = erase p t.invite_list } in
        let w' = if remove_from_player then on_player p (remove_party_invitation q) w else w in
        let w'' = put_party q (some t') w' in
        (true, if is_empty_party t' then disband env q t' w'' else w''))

unfoldable pub invite_player : ℕ → ℕ → Party → World → Bool × World
invite_player q p t w = if has p t.invite_list then (false, w) else (
  true,
  on_player p (add_party_invitation q)
      (put_party q (some (record t { invite_list = t.invite_list ++ (p ∷ []) })) w),
)

-- What follows a pointer to a party; `none` where it dangles.
unfoldable pub with_party {ℓ} : {A : Type ℓ} → World → ℕ → (Party → Option A) → Option A
with_party w q f = elim (w.parties q) [ none ↦ none | some t ↦ f t ]

-- `Player::isInviting`
unfoldable pub is_inviting : World → ℕ → ℕ → Option Bool
unfolding with_party
is_inviting w a b = elim ((w.players a).party) [
  | none ↦ some false
  | some q ↦ with_party w q (λ t. some ((t.leader == a) && has b t.invite_list))
]

-- `Game::playerInviteToParty` for the party that the player has, or a new one.
unfoldable pub invite_from : World → ℕ → ℕ → Option ℕ → Option World
invite_from w p invited none =
    let w' = new_party p w in
    with_party w' w.next_party (λ t. some (invite_player w.next_party invited t w').1)
invite_from w p invited (some q) =
    with_party w q (λ t. if t.leader == p then some (invite_player q invited t w).1 else some w)

unfoldable pub player_invite_to_party : World → ℕ → ℕ → Option World
player_invite_to_party w p invited =
    if p == invited
    then some w
    else if not (w.players p).is_online || not (w.players invited).is_online
    then some w
    else elim (is_inviting w invited p) [
      | none ↦ none
      | some true ↦ some w
      | some false ↦ elim ((w.players invited).party) [
        | some q ↦ some w
        | none ↦ invite_from w p invited ((w.players p).party)
      ]
    ]

-- `Game::playerJoinParty` for a player that the leader is inviting.
unfoldable pub join_from : Env → World → ℕ → ℕ → Option ℕ → Option World
join_from env w p leader none = some w
join_from env w p leader (some q) = with_party w q (λ t.
    if not (t.leader == leader)
    then some w
    else elim ((w.players p).party) [ some r ↦ some w | none ↦ some (join_party env q p t w).1 ])

unfoldable pub player_join_party : Env → World → ℕ → ℕ → Option World
player_join_party env w p leader =
    if not (w.players p).is_online || not (w.players leader).is_online
    then some w
    else elim (is_inviting w leader p) [
      | none ↦ none
      | some false ↦ some w
      | some true ↦ join_from env w p leader ((w.players leader).party)
    ]

-- The actions of a player who has a party.
unfoldable pub from_party : World → ℕ → (ℕ → Party → Option World) → Option World
from_party w p f =
    if not (w.players p).is_online
    then some w
    else elim ((w.players p).party) [ none ↦ some w | some q ↦ with_party w q (λ t. f q t) ]

unfoldable pub player_revoke_party_invitation : Env → World → ℕ → ℕ → Option World
player_revoke_party_invitation env w p invited = from_party w p (λ q t.
    if not (t.leader == p) || not (w.players invited).is_online
    then some w
    else elim (is_inviting w p invited) [
      | none ↦ none
      | some false ↦ some w
      | some true ↦ some (remove_invite env q invited true t w).1
    ])

-- `isPartner`
unfoldable pub is_partner : World → ℕ → ℕ → Bool
is_partner w a b = elim ((w.players a).party) [
  | none ↦ false
  | some q ↦ not (a == b) && points_to ((w.players b).party) q
]

unfoldable pub player_pass_party_leadership : Env → World → ℕ → ℕ → Option World
player_pass_party_leadership env w p new_leader = from_party w p (λ q t.
    if not (t.leader == p)
    then some w
    else if not (w.players new_leader).is_online || not (is_partner w p new_leader)
    then some w
    else some (put_party q (some (pass_party_leadership env w q new_leader t).1) w))

unfoldable pub player_leave_party : Env → World → ℕ → Option World
player_leave_party env w p =
    from_party w p
      (λ q t. if (w.players p).in_fight then some w else some (leave_party env q p t w).1)

unfoldable pub player_enable_shared_party_experience : Env → World → ℕ → Bool → Option World
player_enable_shared_party_experience env w p active =
    let fights = (w.players p).in_fight in
    let outside : Bool = elim ((w.players p).in_protection_zone) [
      | none ↦ false
      | some zone ↦ not zone
    ] in
    from_party w p (λ q t.
      if fights && outside
      then some w
      else some (put_party q (some (set_shared_experience env w p active t).1) w))

-- What players ask of their parties.
pub data Action : Type 0 where
  invite : ℕ → ℕ → Action
  join : ℕ → ℕ → Action
  revoke : ℕ → ℕ → Action
  pass_leadership : ℕ → ℕ → Action
  leave : ℕ → Action
  enable_shared : ℕ → Bool → Action

unfoldable pub perform : Env → Action → World → Option World
perform env (invite p invited) w = player_invite_to_party w p invited
perform env (join p leader) w = player_join_party env w p leader
perform env (revoke p invited) w = player_revoke_party_invitation env w p invited
perform env (pass_leadership p new_leader) w = player_pass_party_leadership env w p new_leader
perform env (leave p) w = player_leave_party env w p
perform env (enable_shared p active) w = player_enable_shared_party_experience env w p active
