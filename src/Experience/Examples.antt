-- ===== src/Experience/Examples.antt =====
-- A player who gains and loses levels in src/player.cpp, and the theorems at that player.
use otservbr_global.Common.{ℕ, ◌+◌, ◌-◌, ◌*◌, ◌≡◌, refl, false, [], ◌∷◌, arith}
use otservbr_global.Experience.{
  Vocation, Player, update_shared_experience, player_advance, get_exp_for_level, get_percent_level,
  level_up, level_ups, update_base_speed, refill, set_percent, settle_gain, add_experience,
  level_down, level_downs, settle_loss, remove_experience,
}
use otservbr_global.Experience.Levels.{exp_after-cubic, top}
use otservbr_global.Experience.Rising.{IsOnLevel, HasRisen}
use otservbr_global.Experience.Gain.{IsGain, add_experience-IsOnLevel}
use otservbr_global.Experience.Loss.{remove_experience-IsOnLevel}

abbrev knight : Vocation
knight = record { hp_gain = 15; mana_gain = 5; cap_gain = 2500; base_speed = 220 }

abbrev rookie : Player
rookie = record {
  level = 2;
  experience = 150;
  level_percent = 50;
  health = 100;
  health_max = 155;
  mana = 10;
  mana_max = 60;
  capacity = 42500;
  base_speed = 222;
  sets_max_speed = false;
  vocation = knight;
}

-- The script doubles every gain.
abbrev twice : Player → ℕ → ℕ
twice p exp = exp * 2

abbrev as_is : Player → ℕ → ℕ
as_is p exp = exp

run_gain :
    let (p, calls) = add_experience twice 200 rookie in
    (p.level ≡ 4)
    × (p.health ≡ 185)
    × (p.level_percent ≡ 37)
    × (p.base_speed ≡ 226)
    × (calls ≡ update_shared_experience ∷ player_advance 2 4 ∷ [])
unfolding add_experience level_ups level_up settle_gain set_percent get_percent_level refill
    update_base_speed get_exp_for_level
run_gain = (refl, refl, refl, refl, refl)

run_loss :
    let (p, calls) = remove_experience as_is 900 rookie in
    (p.level ≡ 1) × (p.experience ≡ 0) × (p.health ≡ 140) × (calls ≡ update_shared_experience ∷ [])
unfolding remove_experience level_downs level_down settle_loss set_percent get_percent_level refill
    update_base_speed get_exp_for_level
run_loss = (refl, refl, refl, refl)

rookie-IsOnLevel : IsOnLevel rookie
rookie-IsOnLevel = record {
  level_pos = omega arith;
  below_top = omega arith;
  reached = omega (arith, exp_after-cubic 1);
  not_next = omega (arith, exp_after-cubic 2);
}

rookie-IsGain : IsGain twice 200 rookie
rookie-IsGain = record {
  word = record {
    health_max_word = omega arith;
    mana_max_word = omega arith;
    capacity_word = omega arith;
  };
  on_level = rookie-IsOnLevel;
  some_gain = omega arith;
  below_top = omega (arith, exp_after-cubic (top - 1));
}

add_experience-IsOnLevel_example :
    let p' = (add_experience twice 200 rookie).0 in
    IsOnLevel p' × (p'.experience ≡ 150 + 400) × ((n : ℕ) × HasRisen n rookie p')
add_experience-IsOnLevel_example = add_experience-IsOnLevel twice 200 rookie rookie-IsGain

remove_experience-IsOnLevel_example :
    let p' = (remove_experience as_is 900 rookie).0 in IsOnLevel p' × (p'.experience ≡ 150 - 900)
remove_experience-IsOnLevel_example =
    remove_experience-IsOnLevel as_is 900 rookie rookie-IsOnLevel (omega arith) (omega arith)
