-- ===== src/Party.antt =====
-- Parties: src/party.cpp, the party members of src/player.cpp and the player actions of src/game.cpp
-- that drive them.
-- A player and a party stand for the objects' addresses; `parties` is the heap, where `none` is an
-- address that holds no party, and new parties get fresh addresses. A player action is `none` where
-- the code would follow a pointer to a party that is gone. Messages to clients are not here.
-- `std::ceil((static_cast<float>(highestLevel) * 2) / 3)` is written as a division of integers, which
-- it equals for levels below 2 ^ 22, where the floats are fine enough.
pub mod Sets
pub mod Consistent
pub mod Operations
unfoldable pub use otservbr_global.Common.Places.{write_at, has, points_to}
use otservbr_global.Common.{
  ℕ, ◌+◌, ◌-◌, ◌*◌, ◌/◌, Bool, true, false, not, ◌&&◌, ◌||◌, Option, none, some, List, [], ◌∷◌, ltb,
  leb, ◌==◌, if◌then◌else◌,
}
use otservbr_global.Common.Words.{sub64}

pub record Position : Type 0 where
  pub x : ℕ
  pub y : ℕ
  pub z : ℕ

-- What a party and its callers read and write of a `Player`.
pub record Player : Type 0 where
  pub is_online : Bool
  pub party : Option ℕ
  pub invite_party_list : List ℕ
  pub level : ℕ
  pub position : Position
  pub not_gain_in_fight : Bool
  pub in_fight : Bool
  pub in_protection_zone : Option Bool

pub record Party : Type 0 where
  pub leader : ℕ
  pub member_list : List ℕ
  pub invite_list : List ℕ
  pub ticks_map : ℕ → Option ℕ
  pub shared_exp_active : Bool
  pub shared_exp_enabled : Bool

pub record World : Type 0 where
  pub players : ℕ → Player
  pub parties : ℕ → Option Party
  pub next_party : ℕ

-- What the methods read of the rest: the answers of the scripts to `eventPartyOnDisband`,
-- `eventPartyOnLeave` and `eventPartyOnJoin`, the clock and the setting PZ_LOCKED.
pub record Env : Type 0 where
  pub on_disband : ℕ → Bool
  pub on_leave : ℕ → ℕ → Bool
  pub on_join : ℕ → ℕ → Bool
  pub now : ℕ
  pub pz_locked : ℕ

-- `erase` of what `std::find` has found.
unfoldable pub erase : ℕ → List ℕ → List ℕ
erase a [] = []
erase a (x ∷ xs) = let rest = erase a xs in if x == a then xs else x ∷ rest

-- `remove` of a `std::forward_list`.
unfoldable pub remove_all : ℕ → List ℕ → List ℕ
remove_all a [] = []
remove_all a (x ∷ xs) = let rest = remove_all a xs in if x == a then rest else x ∷ rest

abbrev pub is_empty : List ℕ → Bool
is_empty [] = true
is_empty (x ∷ xs) = false

unfoldable pub set_party : Option ℕ → Player → Player
set_party o p = record p { party = o }

unfoldable pub add_party_invitation : ℕ → Player → Player
add_party_invitation q p =
    if has q p.invite_party_list
    then p
    else record p { invite_party_list = q ∷ p.invite_party_list }

unfoldable pub remove_party_invitation : ℕ → Player → Player
remove_party_invitation q p = record p { invite_party_list = remove_all q p.invite_party_list }

-- A method of one player, and the same for each of some players.
unfoldable pub on_player : ℕ → (Player → Player) → World → World
on_player p f w = record w { players = write_at p (f (w.players p)) w.players }

unfoldable pub on_players : List ℕ → (Player → Player) → World → World
on_players [] f w = w
on_players (p ∷ ps) f w = on_players ps f (on_player p f w)

unfoldable pub put_party : ℕ → Option Party → World → World
put_party q o w = record w { parties = write_at q o w.parties }

-- `Party::empty`
pub is_empty_party : Party → Bool
is_empty_party t = is_empty t.member_list && is_empty t.invite_list

pub distance : ℕ → ℕ → ℕ
distance a b = (a - b) + (b - a)

-- `Position::areInRange<30, 30, 1>`
pub are_in_range : Position → Position → Bool
unfolding distance
are_in_range a b =
    leb (distance a.x b.x) 30 && (leb (distance a.y b.y) 30 && leb (distance a.z b.z) 1)

pub highest_level : World → ℕ → List ℕ → ℕ
highest_level w highest [] = highest
highest_level w highest (m ∷ ms) =
    let level = (w.players m).level in
    highest_level w (if ltb highest level then level else highest) ms

pub was_active : Env → Party → ℕ → Bool
was_active env t p = elim (t.ticks_map p) [
  | none ↦ false
  | some tick ↦ leb (sub64 env.now tick) env.pz_locked
]

pub can_use_shared_experience : Env → World → Party → ℕ → Bool
unfolding highest_level are_in_range was_active
can_use_shared_experience env w t p =
    let player = w.players p in
    let leader = w.players t.leader in
    let min_level = (highest_level w leader.level t.member_list * 2 + 2) / 3 in
    if is_empty t.member_list
    then false
    else if ltb player.level min_level
    then false
    else if not (are_in_range leader.position player.position)
    then false
    else player.not_gain_in_fight || was_active env t p

pub all_can_use : Env → World → Party → List ℕ → Bool
all_can_use env w t [] = true
all_can_use env w t (m ∷ ms) = can_use_shared_experience env w t m && all_can_use env w t ms

-- `canEnableSharedExperience`
pub can_enable : Env → World → Party → Bool
unfolding can_use_shared_experience all_can_use
can_enable env w t = can_use_shared_experience env w t t.leader && all_can_use env w t t.member_list

unfoldable pub update_shared_experience : Env → World → Party → Party
update_shared_experience env w t =
    if t.shared_exp_active then record t { shared_exp_enabled = can_enable env w t } else t

unfoldable pub clear_found : Env → World → ℕ → Party → Option ℕ → Party
clear_found env w p t none = t
clear_found env w p t (some tick) =
    update_shared_experience env w (record t { ticks_map = write_at p none t.ticks_map })

unfoldable pub clear_player_points : Env → World → ℕ → Party → Party
unfolding clear_found
clear_player_points env w p t = clear_found env w p t (t.ticks_map p)

pub update_player_ticks : Env → World → ℕ → ℕ → Party → Party
update_player_ticks env w p points t =
    if not (points == 0) && not (w.players p).not_gain_in_fight
    then update_shared_experience env w
        (record t { ticks_map = write_at p (some env.now) t.ticks_map })
    else t

pub set_shared_experience : Env → World → ℕ → Bool → Party → Bool × Party
set_shared_experience env w p active t =
    if not (t.leader == p)
    then (false, t)
    else if if active then t.shared_exp_active else not t.shared_exp_active
    then (true, t)
    else (
      true,
      record t {
        shared_exp_active = active;
        shared_exp_enabled =
            if active
            then can_enable env w (record t { shared_exp_active = active })
            else t.shared_exp_enabled;
      },
    )
