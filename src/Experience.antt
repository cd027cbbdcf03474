-- ===== src/Experience.antt =====
-- The experience and the level of a player: `getExpForLevel`, `addExperience`, `removeExperience` and
-- `getPercentLevel` of src/player.h and src/player.cpp.
-- Members keep their widths: a level, a maximum and the capacity are 32-bit words, a signed one by its
-- bit pattern, experience is a 64-bit word. What the scripts do to a gain or a loss is a parameter.
-- Messages to clients are not here; the other calls that a new level brings are answers.
pub mod Levels
pub mod Rising
pub mod Gain
pub mod Loss
mod Examples
use otservbr_global.Common.{
  ℕ, zero, suc, ◌+◌, ◌-◌, ◌*◌, ◌/◌, ◌%◌, ◌^◌, Bool, ◌&&◌, ◌||◌, List, [], ◌∷◌, ltb, leb, ◌==◌,
  if◌then◌else◌,
}
use otservbr_global.Common.Words.{u8_mod, u32_mod, u64_mod, add32, sub32, add64, sub64}

-- What the methods read of the player's vocation.
pub record Vocation : Type 0 where
  pub hp_gain : ℕ
  pub mana_gain : ℕ
  pub cap_gain : ℕ
  pub base_speed : ℕ

pub record Player : Type 0 where
  pub level : ℕ
  pub experience : ℕ
  pub level_percent : ℕ
  pub health : ℕ
  pub health_max : ℕ
  pub mana : ℕ
  pub mana_max : ℕ
  pub capacity : ℕ
  pub base_speed : ℕ
  pub sets_max_speed : Bool
  pub vocation : Vocation

-- Calls of other parts: `party->updateSharedExperience()`, and `playerAdvance` with both levels.
pub data Call : Type 0 where
  update_shared_experience : Call
  player_advance : ℕ → ℕ → Call

-- A 32-bit level as `int32_t`, widened to `unsigned long long`.
abbrev pub widen : ℕ → ℕ
widen w = if ltb w (2 ^ 31) then w else w + (u64_mod - u32_mod)

unfoldable pub get_exp_for_level : ℕ → ℕ
get_exp_for_level level =
    let lv = (widen level + u64_mod - 1) % u64_mod in
    add64 (sub64 (50 * lv * lv * lv % u64_mod) (150 * lv * lv % u64_mod)) (400 * lv % u64_mod) / 3

unfoldable pub get_percent_level : ℕ → ℕ → ℕ
get_percent_level count next_level_count =
    let result = count * 100 % u64_mod / next_level_count % u8_mod in
    if next_level_count == 0 then 0 else if ltb 100 result then 0 else result

-- The body of the loop of `addExperience`, up to the new requirement.
unfoldable pub level_up : Player → Player
level_up p = record p {
  level = add32 p.level 1;
  health_max = add32 p.health_max p.vocation.hp_gain;
  health = add32 p.health p.vocation.hp_gain;
  mana_max = add32 p.mana_max p.vocation.mana_gain;
  mana = add32 p.mana p.vocation.mana_gain;
  capacity = add32 p.capacity p.vocation.cap_gain;
}

-- The loop of `addExperience` on fuel; `curr` and `next` are `currLevelExp` and `nextLevelExp`.
unfoldable pub level_ups : ℕ → ℕ → ℕ → Player → Player × ℕ × ℕ
level_ups zero curr next p = (p, curr, next)
level_ups (suc fuel) curr next p =
    let next' = get_exp_for_level (add32 (add32 p.level 1) 1) in
    let rest = level_ups fuel next next' (level_up p) in
    if leb next p.experience
    then if leb next' next then (level_up p, next, next') else rest
    else (p, curr, next)

-- `updateBaseSpeed()`
unfoldable pub update_base_speed : Player → Player
update_base_speed p = record p {
  base_speed = if p.sets_max_speed then 4500 else add32 p.vocation.base_speed (2 * sub32 p.level 1);
}

-- What both methods do where the level has changed.
unfoldable pub refill : Player → Player
unfolding update_base_speed
refill p = update_base_speed (record p { health = p.health_max; mana = p.mana_max })

-- `levelPercent` at the end of both methods.
unfoldable pub set_percent : ℕ → ℕ → Player → Player
set_percent curr next p = record p {
  level_percent =
      if ltb curr next then get_percent_level (sub64 p.experience curr) (sub64 next curr) else 0;
}

-- After the loop of `addExperience`.
unfoldable pub settle_gain : ℕ → Player × ℕ × ℕ → Player × List Call
settle_gain prev_level (p, curr, next) =
    if p.level == prev_level then (set_percent curr next p, []) else (
      set_percent curr next (refill p),
      update_shared_experience ∷ player_advance prev_level p.level ∷ [],
    )

-- `on_gain` is what `eventPlayerOnGainExperience` makes of the gain.
pub add_experience : (Player → ℕ → ℕ) → ℕ → Player → Player × List Call
add_experience on_gain exp p =
    let curr = get_exp_for_level p.level in
    let next = get_exp_for_level (add32 p.level 1) in
    let gained = on_gain p exp in
    let p' = record p { experience = add64 p.experience gained } in
    if leb next curr
    then (record p { level_percent = 0 }, [])
    else if gained == 0
    then (p, [])
    else settle_gain p.level (level_ups p'.experience curr next p')

-- `std::max<int32_t>(0, ...)` of a difference of 32-bit words.
abbrev pub lowered : ℕ → ℕ → ℕ
lowered a b = let d = sub32 a b in if ltb d (2 ^ 31) then d else 0

unfoldable pub level_down : Player → Player
level_down p = record p {
  level = sub32 p.level 1;
  health_max = lowered p.health_max p.vocation.hp_gain;
  mana_max = lowered p.mana_max p.vocation.mana_gain;
  capacity = lowered p.capacity p.vocation.cap_gain;
}

-- The loop of `removeExperience` on fuel.
unfoldable pub level_downs : ℕ → Player → Player
level_downs zero p = p
level_downs (suc fuel) p =
    let rest = level_downs fuel (level_down p) in
    if ltb 1 p.level && ltb p.experience (get_exp_for_level p.level) then rest else p

-- After the loop of `removeExperience`.
unfoldable pub settle_loss : ℕ → Player → Player × List Call
settle_loss old_level p =
    let curr = get_exp_for_level p.level in
    let next = get_exp_for_level (add32 p.level 1) in
    if p.level == old_level
    then (set_percent curr next p, [])
    else (set_percent curr next (refill p), update_shared_experience ∷ [])

-- `std::max<int64_t>(0, experience - exp)`
abbrev pub less_experience : ℕ → ℕ → ℕ
less_experience experience exp = let d = sub64 experience exp in if ltb d (2 ^ 63) then d else 0

-- `on_loss` is what `eventPlayerOnLoseExperience` makes of the loss.
pub remove_experience : (Player → ℕ → ℕ) → ℕ → Player → Player × List Call
remove_experience on_loss exp p =
    let lost = on_loss p exp in
    let p' = record p { experience = less_experience p.experience lost } in
    if (p.experience == 0) || (exp == 0)
    then (p, [])
    else if lost == 0
    then (p, [])
    else settle_loss p.level (level_downs p.level p')
