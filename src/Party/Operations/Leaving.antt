-- ===== src/Party/Operations/Leaving.antt =====
-- Members who leave the parties of src/party.cpp.
use otservbr_global.Common.{
  ℕ, ◌≡◌, refl, sym, ap, ◌∙◌, inl, inr, Bool, true, false, not, ◌&&◌, Option, none, some, List, [],
  ◌∷◌, arith, ◌==◌, ==_iff, Bool-cases,
}
use otservbr_global.Party.{
  Party, World, Env, write_at, has, erase, is_empty, points_to, set_party, on_player, put_party,
  is_empty_party, update_shared_experience, clear_player_points,
}
use otservbr_global.Party.Sets.{write_at_lem, has-erase, erase-IsDistinct}
use otservbr_global.Party.Consistent.{
  IsConsistent, Change, Change-IsConsistent, Change-at, address-lt, own_belongs, own_invited,
  own_distinct, update_shared_experience_lem, clear_player_points_lem, member_of,
}
use otservbr_global.Party.Operations.{
  disband, pass_party_leadership, replace_leader, take_leave, leave_party,
}
use otservbr_global.Party.Operations.Dissolving.{dissolve-IsConsistent, disband-IsConsistent}
use otservbr_global.Party.Operations.Parting.{leave-IsPresent}
use otservbr_global.Party.Operations.Leadership.{SameParty, pass_party_leadership-SameParty}
use otservbr_global.Party.Operations.LastLeader.{leaver_others, leader_left-Draining}

-- The party without the one who leaves, whatever becomes of the shared experience.
after_leave :
    (env : Env) (w : World) (p : ℕ) (t : Party)
    → (ticks : ℕ → Option ℕ) × (b : Bool) × (clear_player_points env w p
          (update_shared_experience env w (record t { member_list = erase p t.member_list }))
        ≡ record t {
          member_list = erase p t.member_list;
          ticks_map = ticks;
          shared_exp_enabled = b;
        })
after_leave env w p t =
    let t' = record t { member_list = erase p t.member_list } in
    let u = update_shared_experience_lem env w t' in
    let c = clear_player_points_lem env w p (record t' { shared_exp_enabled = u.0 }) in
    (c.0, c.1, ap (clear_player_points env w p) u.1 ∙ c.2)

-- A member who is not the leader leaves.
leave_listed-IsConsistent :
    (env : Env) (q p : ℕ) (t t₁ : Party) (w : World)
    → IsConsistent w
    → w.parties q ≡ some t
    → SameParty t t₁
    → has p t₁.member_list ≡ true
    → IsConsistent (take_leave env q p w (false, t₁))
unfolding take_leave on_player put_party
leave_listed-IsConsistent env q p t t₁ w h is same listed =
    let player = w.players p in
    let x = set_party none player in
    let w₁ = record w { players = write_at p x w.players } in
    let (ticks, b, rest) = after_leave env w₁ p t₁ in
    let t₂ = record t₁ {
      member_list = erase p t₁.member_list;
      ticks_map = ticks;
      shared_exp_enabled = b;
    } in
    let d = same.still_distinct in
    let member : member_of (some t) p ≡ true = sym (same.same_members p) ∙ ground arith in
    let gone : x.party ≡ none = unfold set_party in refl in
    let invites : x.invite_party_list ≡ player.invite_party_list = unfold set_party in refl in
    let change : Change w (write_at p x w.players) q (some t₂) =
      Change-at w p x q (some t₂) h
        (λ r ne. ap (λ o. points_to o r) gone ∙ leaver_others w q p r t h is member ne)
        (ap (λ o. points_to o q) gone
          ∙ ground (arith, has-erase p p t₁.member_list d.1, d.0, listed))
        (λ r ne.
          own_belongs w q t r h is
          ∙ (sym (same.same_members r) ∙ ground (arith, has-erase r p t₁.member_list d.1)))
        (λ r ne. ap (has r) invites)
        (ap (has q) invites ∙ (own_invited w q t p h is ∙ ap (has p) (sym same.same_invitees)))
        (λ r ne. own_invited w q t r h is ∙ ap (has r) (sym same.same_invitees))
        (
          ground (arith, has-erase t₁.leader p t₁.member_list d.1, d.0),
          erase-IsDistinct p t₁.member_list d.1,
          d.2,
        )
        (leave-IsPresent player (h.present p)) in
    let w₂ : World = record {
      players = write_at p x w.players;
      parties = write_at q (some t₂) w.parties;
      next_party = w.next_party;
    } in
    let kept : IsConsistent w₂ =
      Change-IsConsistent w _ q w.next_party _ h change (omega arith) (address-lt w q t h is) in
    let there : w₂.parties q ≡ some t₂ = write_at_lem q (some t₂) w.parties q ∙ ground arith in
    rw rest (elim (Bool-cases (is_empty_party t₂)) [
      | inl e ↦ rw e (disband-IsConsistent env q t₂ w₂ kept there)
      | inr e ↦ rw e kept
    ])

-- The leader leaves and the party ends.
leave_last-IsConsistent :
    (env : Env) (q p : ℕ) (t : Party) (w : World)
    → IsConsistent w
    → w.parties q ≡ some t
    → t.leader ≡ p
    → env.on_disband q ≡ true
    → IsConsistent (take_leave env q p w (true, t))
unfolding take_leave on_player put_party disband
leave_last-IsConsistent env q p t w h is leads allowed =
    let (ticks, b, rest) =
      after_leave env (record w { players = write_at p (set_party none (w.players p)) w.players }) p
        t in
    let t₂ = record t {
      member_list = erase p t.member_list;
      ticks_map = ticks;
      shared_exp_enabled = b;
    } in
    rw (rest, allowed)
      (dissolve-IsConsistent w _ q t₂ h (address-lt w q t h is)
        (leader_left-Draining q p t t₂ w h is leads leads refl refl))

replace_leader-IsConsistent :
    (env : Env) (q p : ℕ) (t : Party) (w : World) (ms : List ℕ)
    → IsConsistent w
    → w.parties q ≡ some t
    → t.leader ≡ p
    → env.on_disband q ≡ true
    → t.member_list ≡ ms
    → IsConsistent (take_leave env q p w (replace_leader env w q t ms))
unfolding replace_leader has
replace_leader-IsConsistent env q p t w [] h is leads allowed e =
    leave_last-IsConsistent env q p t w h is leads allowed
replace_leader-IsConsistent env q p t w (front ∷ others) h is leads allowed e =
    elim (Bool-cases (is_empty others && is_empty t.invite_list)) [
      | inl last ↦ rw last (leave_last-IsConsistent env q p t w h is leads allowed)
      | inr more ↦
          let passed = pass_party_leadership-SameParty env w q front t h is in
          let listed : has front t.member_list ≡ true = ap (has front) e ∙ ground arith in
          let t₁ = (pass_party_leadership env w q front t).1 in
          rw more (
            leave_listed-IsConsistent env q p t t₁ w h is passed.0
              (ap (λ l. has l t₁.member_list) (sym leads) ∙ (passed.1 listed).1))
    ]

-- Whoever leaves, the parties and the players still agree.
pub leave_party-IsConsistent :
    (env : Env) (q p : ℕ) (t : Party) (w : World)
    → IsConsistent w
    → w.parties q ≡ some t
    → env.on_disband q ≡ true
    → IsConsistent (leave_party env q p t w).1
unfolding leave_party
leave_party-IsConsistent env q p t w h is allowed =
    elim (Bool-cases (not (points_to ((w.players p).party) q) && not (t.leader == p))) [
      | inl e ↦ rw e h
      | inr e ↦ elim (Bool-cases (env.on_leave q p)) [
        | inr e' ↦ rw (e, e') h
        | inl e' ↦ elim (Bool-cases (t.leader == p)) [
          | inl leads ↦
              rw (e, e', leads)
                (replace_leader-IsConsistent env q p t w t.member_list h is
                  ((==_iff t.leader p).0 leads) allowed refl)
          | inr other ↦
              let listed : has p t.member_list ≡ true = ground (arith, own_belongs w q t p h is) in
              let same : SameParty t t = record {
                same_members = λ r. refl;
                same_invitees = refl;
                still_distinct = own_distinct w q t h is;
              } in
              rw (e, e', other) (leave_listed-IsConsistent env q p t t w h is same listed)
        ]
      ]
    ]
