-- ===== src/Experience/Loss.antt =====
-- What `removeExperience` of src/player.cpp makes of a player whose level goes with the experience,
-- and that it undoes `addExperience`.
use otservbr_global.Common.{
  ℕ, zero, suc, ◌-◌, ◌^◌, ◌≤◌, ◌<◌, ◌≡◌, refl, ◌∙◌, inl, inr, false, ◌&&◌, ◌||◌, arith, ltb, ◌==◌,
  Bool-cases,
}
use otservbr_global.Experience.{
  Player, get_exp_for_level, level_down, level_downs, refill, set_percent, settle_loss,
  less_experience, remove_experience, add_experience,
}
use otservbr_global.Experience.Levels.{
  exp_after, top, exp_after_unique, exp_after_le, exp_after-top, exp_after_zero,
}
use otservbr_global.Experience.Rising.{IsOnLevel, exp_of}
use otservbr_global.Experience.Gain.{Keeps, Keeps-IsOnLevel, IsGain, add_experience-IsOnLevel}

-- Where the loop ends, the experience is enough for the level.
reached_of :
    (p : Player)
    → 1 ≤ p.level
    → p.level < top
    → (ltb 1 p.level && ltb p.experience (get_exp_for_level p.level)) ≡ false
    → exp_after (p.level - 1) ≤ p.experience
reached_of p pos below done =
    let at_level = exp_of p.level pos (omega arith) in
    elim (Bool-cases (ltb 1 p.level)) [
      | inl several ↦ ground arith
      | inr lowest ↦
          let first : p.level - 1 ≡ 0 = ground arith in rw (first, exp_after_zero) (omega arith)
    ]

-- The loop leaves a level that goes with the experience.
level_downs-IsOnLevel :
    (fuel : ℕ) (p : Player)
    → p.level ≤ fuel
    → 1 ≤ p.level
    → p.level < top
    → p.experience < exp_after p.level
    → IsOnLevel (level_downs fuel p) × ((level_downs fuel p).experience ≡ p.experience)
unfolding level_downs
level_downs-IsOnLevel zero p le pos below next = absurd (omega arith)
level_downs-IsOnLevel (suc fuel) p le pos below next =
    elim (Bool-cases (ltb 1 p.level && ltb p.experience (get_exp_for_level p.level))) [
      | inl again ↦
          let at_level = exp_of p.level pos (omega arith) in
          let several : 1 < p.level = ground arith in
          let fewer : p.experience < exp_after (p.level - 1) = ground arith in
          let down : (level_down p).level ≡ p.level - 1 = unfold level_down in omega arith in
          let same : (level_down p).experience ≡ p.experience = unfold level_down in refl in
          let rest =
            level_downs-IsOnLevel fuel (level_down p) (omega (arith, down)) (omega (arith, down))
              (omega (arith, down)) (rw (down, same) fewer) in
          rw again (rest.0, rest.1 ∙ same)
      | inr done ↦
          let reached = reached_of p pos below done in
          rw done (
            record { level_pos = pos; below_top = below; reached = reached; not_next = next },
            refl,
          )
    ]

settle_loss-Keeps : (old : ℕ) (p : Player) → Keeps p (settle_loss old p).0
unfolding settle_loss set_percent refill
settle_loss-Keeps old p = elim (Bool-cases (p.level == old)) [
  | inl e ↦ simp e (record {
    level_kept = refl;
    experience_kept = refl;
    health_max_kept = refl;
    mana_max_kept = refl;
    capacity_kept = refl;
  })
  | inr e ↦ simp e (record {
    level_kept = refl;
    experience_kept = refl;
    health_max_kept = refl;
    mana_max_kept = refl;
    capacity_kept = refl;
  })
]

-- A loss of experience, larger than what there is or not, leaves the player on the level that goes
-- with the experience that is left.
pub remove_experience-IsOnLevel :
    (on_loss : Player → ℕ → ℕ) (exp : ℕ) (p : Player)
    → IsOnLevel p
    → 0 < exp
    → on_loss p exp < 2 ^ 63
    → let p' = (remove_experience on_loss exp p).0 in
      IsOnLevel p' × (p'.experience ≡ p.experience - on_loss p exp)
unfolding remove_experience
remove_experience-IsOnLevel on_loss exp p h pos small =
    let lost = on_loss p exp in
    let size : p.experience < 2 ^ 63 = omega (
      arith,
      h.not_next,
      exp_after-top,
      exp_after_le p.level (top - 1) (omega (arith, h.below_top)),
    ) in
    let left : less_experience p.experience lost ≡ p.experience - lost = ground arith in
    elim (Bool-cases ((p.experience == 0) || (exp == 0))) [
      | inl e ↦ let none_left : p.experience ≡ 0 = ground arith in rw e (h, omega arith)
      | inr e ↦ elim (Bool-cases (lost == 0)) [
        | inl z ↦ rw (e, z) (h, ground arith)
        | inr z ↦
            let p' = record p { experience = p.experience - lost } in
            let loop =
              level_downs-IsOnLevel p.level p' (omega arith) h.level_pos h.below_top
                (omega (arith, h.not_next)) in
            let kept = settle_loss-Keeps p.level (level_downs p.level p') in
            rw (e, z, left) (Keeps-IsOnLevel kept loop.0, kept.experience_kept ∙ loop.1)
      ]
    ]

-- A loss takes back a gain of the same size: the experience and the level are those from before.
pub remove_experience-add_experience :
    (on_gain on_loss : Player → ℕ → ℕ) (exp loss : ℕ) (p : Player)
    → IsGain on_gain exp p
    → 0 < loss
    → on_loss (add_experience on_gain exp p).0 loss ≡ on_gain p exp
    → on_gain p exp < 2 ^ 63
    → let p' = (remove_experience on_loss loss (add_experience on_gain exp p).0).0 in
      (p'.experience ≡ p.experience) × (p'.level ≡ p.level)
remove_experience-add_experience on_gain on_loss exp loss p h pos same small =
    let q = (add_experience on_gain exp p).0 in
    let gained = add_experience-IsOnLevel on_gain exp p h in
    let back = remove_experience-IsOnLevel on_loss loss q gained.0 pos (omega arith) in
    let p' = (remove_experience on_loss loss q).0 in
    let before = h.on_level in
    let after = back.0 in
    let experience : p'.experience ≡ p.experience = omega (arith, back.1, gained.1, same) in
    let last : suc (p.level - 1) ≡ p.level = omega (arith, before.level_pos) in
    let last' : suc (p'.level - 1) ≡ p'.level = omega (arith, after.level_pos) in
    let level : p'.level - 1 ≡ p.level - 1 =
      exp_after_unique (p'.level - 1) (p.level - 1) p.experience
        (omega (arith, after.reached, experience))
        (rw last' (omega (arith, after.not_next, experience))) before.reached
        (rw last before.not_next) in
    (experience, omega (arith, level, before.level_pos, after.level_pos))
