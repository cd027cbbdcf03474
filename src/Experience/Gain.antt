-- ===== src/Experience/Gain.antt =====
-- What `addExperience` of src/player.cpp makes of a player whose level goes with the experience.
use otservbr_global.Common.{
  ℕ, suc, ◌+◌, ◌-◌, ◌<◌, ◌≡◌, refl, ap, ◌∙◌, inl, inr, false, arith, leb, ◌==◌, Bool-cases,
}
use otservbr_global.Common.Words.{add32, add64}
use otservbr_global.Experience.{
  Player, get_exp_for_level, level_ups, refill, set_percent, settle_gain, add_experience,
}
use otservbr_global.Experience.Levels.{exp_after, top, get_exp_for_level_lem, exp_after-top}
use otservbr_global.Experience.Rising.{IsOnLevel, HasRisen, IsPlayer, exp_of, level_ups-IsLevelled}

-- Members that the end of the methods leaves alone.
pub record Keeps (p q : Player) : Type 0 where
  pub level_kept : q.level ≡ p.level
  pub experience_kept : q.experience ≡ p.experience
  pub health_max_kept : q.health_max ≡ p.health_max
  pub mana_max_kept : q.mana_max ≡ p.mana_max
  pub capacity_kept : q.capacity ≡ p.capacity

settle_gain-Keeps : (prev curr next : ℕ) (p : Player) → Keeps p (settle_gain prev (p, curr, next)).0
unfolding settle_gain set_percent refill
settle_gain-Keeps prev curr next p = elim (Bool-cases (p.level == prev)) [
  | inl e ↦ simp e (record {
    level_kept = refl;
    experience_kept = refl;
    health_max_kept = refl;
    mana_max_kept = refl;
    capacity_kept = refl;
  })
  | inr e ↦ simp e (record {
    level_kept = refl;
    experience_kept = refl;
    health_max_kept = refl;
    mana_max_kept = refl;
    capacity_kept = refl;
  })
]

pub Keeps-IsOnLevel : {p q : Player} → Keeps p q → IsOnLevel p → IsOnLevel q
Keeps-IsOnLevel k h = record {
  level_pos = omega (arith, k.level_kept, h.level_pos);
  below_top = omega (arith, k.level_kept, h.below_top);
  reached = rw (k.level_kept, k.experience_kept) h.reached;
  not_next = rw (k.level_kept, k.experience_kept) h.not_next;
}

Keeps-HasRisen : {n : ℕ} {o p q : Player} → Keeps p q → HasRisen n o p → HasRisen n o q
Keeps-HasRisen k r = record {
  level_is = k.level_kept ∙ r.level_is;
  health_max_is = k.health_max_kept ∙ r.health_max_is;
  mana_max_is = k.mana_max_kept ∙ r.mana_max_is;
  capacity_is = k.capacity_kept ∙ r.capacity_is;
}

-- A player on a level gains experience that does not reach the top level, as the scripts have it.
pub record IsGain (on_gain : Player → ℕ → ℕ) (exp : ℕ) (p : Player) : Type 0 where
  pub word : IsPlayer p
  pub on_level : IsOnLevel p
  pub some_gain : 0 < on_gain p exp
  pub below_top : p.experience + on_gain p exp < exp_after (top - 1)

abbrev richer : ℕ → Player → Player
richer gained p = record p { experience = p.experience + gained }

-- The guards of `addExperience` let the gain through.
add_experience_settles :
    (on_gain : Player → ℕ → ℕ) (exp : ℕ) (p : Player)
    → IsGain on_gain exp p
    → let p' = richer (on_gain p exp) p in
      add_experience on_gain exp p
      ≡ settle_gain p.level
          (level_ups p'.experience (exp_after (p.level - 1)) (exp_after p.level) p')
unfolding add_experience
add_experience_settles on_gain exp p h =
    let up : add32 p.level 1 ≡ suc p.level = omega (arith, h.on_level.below_top) in
    let curr : get_exp_for_level p.level ≡ exp_after (p.level - 1) =
      exp_of p.level h.on_level.level_pos (omega (arith, h.on_level.below_top)) in
    let next : get_exp_for_level (add32 p.level 1) ≡ exp_after p.level =
      ap get_exp_for_level up ∙ get_exp_for_level_lem p.level h.on_level.below_top in
    let more : leb (exp_after p.level) (exp_after (p.level - 1)) ≡ false =
      ground (arith, h.on_level.reached, h.on_level.not_next) in
    let gain : (on_gain p exp == 0) ≡ false = ground (arith, h.some_gain) in
    let total : add64 p.experience (on_gain p exp) ≡ p.experience + on_gain p exp =
      omega (arith, h.below_top, exp_after-top) in
    rw (next, curr, more, gain, total) refl

-- After a gain that does not reach the level 700000 the player has the gained experience, is on the
-- level that goes with it, and has the maxima of so many levels more.
pub add_experience-IsOnLevel :
    (on_gain : Player → ℕ → ℕ) (exp : ℕ) (p : Player)
    → IsGain on_gain exp p
    → let p' = (add_experience on_gain exp p).0 in
      IsOnLevel p' × (p'.experience ≡ p.experience + on_gain p exp) × ((n : ℕ) × HasRisen n p p')
add_experience-IsOnLevel on_gain exp p h =
    let p' = richer (on_gain p exp) p in
    let word : IsPlayer p' = record {
      health_max_word = h.word.health_max_word;
      mana_max_word = h.word.mana_max_word;
      capacity_word = h.word.capacity_word;
    } in
    let looped =
      level_ups-IsLevelled p'.experience p' word h.on_level.level_pos h.on_level.below_top
        (omega (arith, h.on_level.reached)) h.below_top (omega (arith, h.on_level.not_next)) in
    let out = level_ups p'.experience (exp_after (p.level - 1)) (exp_after p.level) p' in
    let kept = settle_gain-Keeps p.level out.1 out.2 out.0 in
    let (n, r) = looped.risen in
    let risen : HasRisen n p out.0 = record {
      level_is = r.level_is;
      health_max_is = r.health_max_is;
      mana_max_is = r.mana_max_is;
      capacity_is = r.capacity_is;
    } in
    rw (add_experience_settles on_gain exp p h) (
      Keeps-IsOnLevel kept looped.on_level,
      kept.experience_kept ∙ looped.same_experience,
      (n, Keeps-HasRisen kept risen),
    )
