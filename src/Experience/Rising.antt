-- ===== src/Experience/Rising.antt =====
-- The loop of `addExperience` of src/player.cpp raises the level to the one of the experience.
use otservbr_global.Common.{
  ℕ, zero, suc, ◌+◌, ◌-◌, ◌*◌, ◌%◌, ◌≤◌, ◌<◌, ◌≡◌, refl, sym, ap, ap₂, ◌∙◌, inl, inr, false, arith,
  leb, Bool-cases,
}
use mathlib.Core.Path.{subst}
use otservbr_global.Common.Words.{u32_mod, add32}
use otservbr_global.Experience.{Player, get_exp_for_level, level_up, level_ups}
use otservbr_global.Experience.Levels.{
  exp_after, top, get_exp_for_level_lem, exp_after-step, exp_after_le,
}

-- The experience reaches the level's and not the next one's.
pub record IsOnLevel (p : Player) : Type 0 where
  pub level_pos : 1 ≤ p.level
  pub below_top : p.level < top
  pub reached : exp_after (p.level - 1) ≤ p.experience
  pub not_next : p.experience < exp_after p.level

-- The maxima after so many levels more.
pub record HasRisen (n : ℕ) (p q : Player) : Type 0 where
  pub level_is : q.level ≡ p.level + n
  pub health_max_is : q.health_max ≡ (p.health_max + n * p.vocation.hp_gain) % u32_mod
  pub mana_max_is : q.mana_max ≡ (p.mana_max + n * p.vocation.mana_gain) % u32_mod
  pub capacity_is : q.capacity ≡ (p.capacity + n * p.vocation.cap_gain) % u32_mod

-- The members are 32-bit words.
pub record IsPlayer (p : Player) : Type 0 where
  pub health_max_word : p.health_max < u32_mod
  pub mana_max_word : p.mana_max < u32_mod
  pub capacity_word : p.capacity < u32_mod

-- The loop of `addExperience` at an experience below the top level's.
pub record IsLevelled (p : Player) (out : Player × ℕ × ℕ) : Type 0 where
  pub risen : (n : ℕ) × HasRisen n p out.0
  pub on_level : IsOnLevel out.0
  pub same_experience : out.0.experience ≡ p.experience
  pub same_vocation : out.0.vocation ≡ p.vocation
  pub same_flag : out.0.sets_max_speed ≡ p.sets_max_speed
  pub curr_is : out.1 ≡ exp_after (out.0.level - 1)
  pub next_is : out.2 ≡ exp_after (out.0.level)

pub exp_of : (level : ℕ) → 1 ≤ level → level ≤ top → get_exp_for_level level ≡ exp_after (level - 1)
exp_of level pos below =
    let e : level ≡ suc (level - 1) = omega arith in
    subst (λ l. get_exp_for_level l ≡ exp_after (level - 1)) (sym e)
      (get_exp_for_level_lem (level - 1) (omega arith))

IsLevelled-here :
    (p : Player)
    → IsPlayer p
    → IsOnLevel p
    → IsLevelled p (p, exp_after (p.level - 1), exp_after p.level)
IsLevelled-here p w h = record {
  risen = (
    0,
    record {
      level_is = omega arith;
      health_max_is = omega (arith, w.health_max_word);
      mana_max_is = omega (arith, w.mana_max_word);
      capacity_is = omega (arith, w.capacity_word);
    },
  );
  on_level = h;
  same_experience = refl;
  same_vocation = refl;
  same_flag = refl;
  curr_is = refl;
  next_is = refl;
}

level_up-IsPlayer : (p : Player) → IsPlayer (level_up p)
unfolding level_up
level_up-IsPlayer p = record {
  health_max_word = omega arith;
  mana_max_word = omega arith;
  capacity_word = omega arith;
}

IsLevelled-next :
    (p : Player) (out : Player × ℕ × ℕ)
    → p.level < top
    → IsLevelled (level_up p) out
    → IsLevelled p out
unfolding level_up
IsLevelled-next p out below h =
    let (n, r) = h.risen in
    record {
      risen = (
        suc n,
        record {
          level_is = omega (arith, r.level_is);
          health_max_is = omega (arith, r.health_max_is);
          mana_max_is = omega (arith, r.mana_max_is);
          capacity_is = omega (arith, r.capacity_is);
        },
      );
      on_level = h.on_level;
      same_experience = h.same_experience;
      same_vocation = h.same_vocation;
      same_flag = h.same_flag;
      curr_is = h.curr_is;
      next_is = h.next_is;
    }

-- The next level is not the top one where the experience does not reach that.
below_top_next :
    (level e : ℕ) → level < top → exp_after level ≤ e → e < exp_after (top - 1) → suc level < top
below_top_next level e below reached small = ground (arith, exp_after_le (top - 1) level)

pub level_ups-IsLevelled :
    (fuel : ℕ) (p : Player)
    → IsPlayer p
    → 1 ≤ p.level
    → p.level < top
    → exp_after (p.level - 1) ≤ p.experience
    → p.experience < exp_after (top - 1)
    → p.experience < exp_after p.level + fuel
    → IsLevelled p (level_ups fuel (exp_after (p.level - 1)) (exp_after p.level) p)
unfolding level_ups
level_ups-IsLevelled zero p w pos below reached small enough =
    IsLevelled-here p w
      (record { level_pos = pos; below_top = below; reached = reached; not_next = omega arith })
level_ups-IsLevelled (suc fuel) p w pos below reached small enough =
    elim (Bool-cases (leb (exp_after p.level) p.experience)) [
      | inl due ↦
          let has : exp_after p.level ≤ p.experience = ground arith in
          let room = below_top_next p.level p.experience below has small in
          let up : add32 p.level 1 ≡ suc p.level = omega arith in
          let level_is : (level_up p).level ≡ suc p.level = unfold level_up in up in
          let same : (level_up p).experience ≡ p.experience = unfold level_up in refl in
          let up_twice : add32 (add32 p.level 1) 1 ≡ suc (suc p.level) = omega arith in
          let next_is : get_exp_for_level (add32 (add32 p.level 1) 1) ≡ exp_after (suc p.level) =
            ap get_exp_for_level up_twice ∙ get_exp_for_level_lem (suc p.level) room in
          let more : leb (exp_after (suc p.level)) (exp_after p.level) ≡ false =
            ground (arith, exp_after-step p.level) in
          let back : (level_up p).level - 1 ≡ p.level = omega (arith, level_is) in
          let start =
            ap₂ (λ curr next. level_ups fuel curr next (level_up p)) (ap exp_after back)
              (ap exp_after level_is) in
          let rest = subst (IsLevelled (level_up p)) start (
            level_ups-IsLevelled fuel (level_up p) (level_up-IsPlayer p) (omega (arith, level_is))
              (omega (arith, level_is, room))
              (subst (λ l. exp_after l ≤ (level_up p).experience) (sym back) (rw same has))
              (omega (arith, same))
              (omega (arith, same, ap exp_after level_is, exp_after-step p.level))) in
          rw (due, next_is, more) (IsLevelled-next p _ below rest)
      | inr done ↦ rw done (
          IsLevelled-here p w (record {
            level_pos = pos;
            below_top = below;
            reached = reached;
            not_next = ground arith;
          }))
    ]
