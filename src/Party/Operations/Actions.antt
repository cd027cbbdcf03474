-- ===== src/Party/Operations/Actions.antt =====
-- The player actions of src/game.cpp follow no pointer to a party that is gone, and keep the parties
-- and the players in agreement.
use otservbr_global.Common.{
  ℕ, ◌≡◌, refl, ◌∙◌, inl, inr, Bool, true, false, not, ◌&&◌, ◌||◌, Option, none, some, arith, ◌==◌,
  if◌then◌else◌, ==_iff, Bool-cases, Option-cases,
}
use otservbr_global.Party.{
  Player, Party, World, Env, put_party, set_shared_experience, set_party, on_player,
}
use otservbr_global.Party.Sets.{write_at-field}
use otservbr_global.Party.Consistent.{IsConsistent, own_distinct}
use otservbr_global.Party.Operations.{
  new_party, pass_party_leadership, invite_from, player_invite_to_party, join_from,
  player_join_party, player_revoke_party_invitation, is_partner, player_pass_party_leadership,
  player_leave_party, player_enable_shared_party_experience,
}
use otservbr_global.Party.Operations.Inviting.{
  invite_player-IsConsistent, join_party-IsConsistent, remove_invite-IsConsistent,
  new_party-IsConsistent,
}
use otservbr_global.Party.Operations.Leaving.{leave_party-IsConsistent}
use otservbr_global.Party.Operations.Leadership.{SameParty, pass_party_leadership-SameParty}
use otservbr_global.Party.Operations.Following.{
  Returns, put_party-IsConsistent, with_party-Returns_there, with_party-Returns, from_party-Returns,
  is_inviting_total,
}

new_party-is_online :
    (p r : ℕ) (w : World) → ((new_party p w).players r).is_online ≡ (w.players r).is_online
unfolding new_party on_player put_party set_party
new_party-is_online p r w =
    write_at-field (λ (y : Player). y.is_online) p
      (record (w.players p) { party = some w.next_party }) w.players r
    ∙ elim (Bool-cases (r == p)) [ inl e ↦ rw (e, (==_iff r p).0 e) refl | inr e ↦ rw e refl ]

invite_from-Returns :
    (w : World) (p invited : ℕ) (o : Option ℕ)
    → IsConsistent w
    → (w.players p).party ≡ o
    → (w.players p).is_online ≡ true
    → (w.players invited).is_online ≡ true
    → Returns (invite_from w p invited o)
unfolding invite_from
invite_from-Returns w p invited none h o on on' =
    let (kept, (t, there, leads)) = new_party-IsConsistent p w h on o in
    with_party-Returns_there (new_party p w) w.next_party t _ there (
      invite_player-IsConsistent w.next_party invited t (new_party p w) kept there
        (new_party-is_online p invited w ∙ on'))
invite_from-Returns w p invited (some q) h o on on' = with_party-Returns w p q _ h o (λ t there.
    elim (Bool-cases (t.leader == p)) [
      | inl e ↦ rw e (invite_player-IsConsistent q invited t w h there on')
      | inr e ↦ rw e h
    ])

pub player_invite_to_party-Returns :
    (w : World) (p invited : ℕ) → IsConsistent w → Returns (player_invite_to_party w p invited)
unfolding player_invite_to_party
player_invite_to_party-Returns w p invited h =
    let (answer, asked) = is_inviting_total w invited p h in
    elim (Bool-cases (p == invited)) [
      | inl e ↦ rw e h
      | inr e ↦
          elim (Bool-cases (not (w.players p).is_online || not (w.players invited).is_online)) [
            | inl off ↦ rw (e, off) h
            | inr on ↦ rw (e, on, asked) (answered answer (ground arith) (ground arith))
          ]
    ]
  where
    answered :
        (answer : Bool)
        → (w.players p).is_online ≡ true
        → (w.players invited).is_online ≡ true
        → Returns (elim (some answer) [
          | none ↦ none
          | some true ↦ some w
          | some false ↦ elim ((w.players invited).party) [
            | some q ↦ some w
            | none ↦ invite_from w p invited ((w.players p).party)
          ]
        ])
    answered true on on' = h
    answered false on on' = elim (Option-cases ((w.players invited).party)) [
      | inl o ↦ rw o (invite_from-Returns w p invited ((w.players p).party) h refl on on')
      | inr s ↦ rw s.1 h
    ]

join_from-Returns :
    (env : Env) (w : World) (p leader : ℕ) (o : Option ℕ)
    → IsConsistent w
    → (w.players leader).party ≡ o
    → (w.players p).is_online ≡ true
    → Returns (join_from env w p leader o)
unfolding join_from
join_from-Returns env w p leader none h o on = h
join_from-Returns env w p leader (some q) h o on = with_party-Returns w leader q _ h o (λ t there.
    elim (Bool-cases (t.leader == leader)) [
      | inr e ↦ rw e h
      | inl e ↦ elim (Option-cases ((w.players p).party)) [
        | inr s ↦ rw (e, s.1) h
        | inl free ↦ rw (e, free) (join_party-IsConsistent env q p t w h there on free)
      ]
    ])

pub player_join_party-Returns :
    (env : Env) (w : World) (p leader : ℕ)
    → IsConsistent w
    → Returns (player_join_party env w p leader)
unfolding player_join_party
player_join_party-Returns env w p leader h =
    let (answer, asked) = is_inviting_total w leader p h in
    elim (Bool-cases (not (w.players p).is_online || not (w.players leader).is_online)) [
      | inl off ↦ rw off h
      | inr on ↦
          rw (on, asked)
            (elim (Bool-cases answer) [
              | inl e ↦ rw e (
                  join_from-Returns env w p leader ((w.players leader).party) h refl (ground arith))
              | inr e ↦ rw e h
            ])
    ]

pub player_revoke_party_invitation-Returns :
    (env : Env) (w : World) (p invited : ℕ)
    → IsConsistent w
    → Returns (player_revoke_party_invitation env w p invited)
unfolding player_revoke_party_invitation
player_revoke_party_invitation-Returns env w p invited h =
    let (answer, asked) = is_inviting_total w p invited h in
    from_party-Returns w p _ h (λ q t points there.
      elim (Bool-cases (not (t.leader == p) || not (w.players invited).is_online)) [
        | inl e ↦ rw e h
        | inr e ↦
            rw (e, asked)
              (elim (Bool-cases answer) [
                | inl e' ↦ rw e' (remove_invite-IsConsistent env q invited t w h there)
                | inr e' ↦ rw e' h
              ])
      ])

pub player_pass_party_leadership-Returns :
    (env : Env) (w : World) (p new_leader : ℕ)
    → IsConsistent w
    → Returns (player_pass_party_leadership env w p new_leader)
unfolding player_pass_party_leadership
player_pass_party_leadership-Returns env w p new_leader h =
    from_party-Returns w p _ h (λ q t points there. elim (Bool-cases (t.leader == p)) [
      | inr e ↦ rw e h
      | inl e ↦
          elim (Bool-cases
            (not (w.players new_leader).is_online || not (is_partner w p new_leader))) [
              | inl e' ↦ rw (e, e') h
              | inr e' ↦
                  rw (e, e')
                    (put_party-IsConsistent w q t (pass_party_leadership env w q new_leader t).1 h
                      there (pass_party_leadership-SameParty env w q new_leader t h there).0)
            ]
    ])

pub player_leave_party-Returns :
    (env : Env) (w : World) (p : ℕ)
    → IsConsistent w
    → ((q : ℕ) → env.on_disband q ≡ true)
    → Returns (player_leave_party env w p)
unfolding player_leave_party
player_leave_party-Returns env w p h allowed = from_party-Returns w p _ h (λ q t points there.
    elim (Bool-cases (w.players p).in_fight) [
      | inl e ↦ rw e h
      | inr e ↦ rw e (leave_party-IsConsistent env q p t w h there (allowed q))
    ])

set_shared_experience-SameParty :
    (env : Env) (w : World) (q p : ℕ) (active : Bool) (t : Party)
    → IsConsistent w
    → w.parties q ≡ some t
    → SameParty t (set_shared_experience env w p active t).1
unfolding set_shared_experience
set_shared_experience-SameParty env w q p active t h is =
    let same : SameParty t t = record {
      same_members = λ r. refl;
      same_invitees = refl;
      still_distinct = own_distinct w q t h is;
    } in
    elim (Bool-cases (t.leader == p)) [
      | inr e ↦ rw e same
      | inl e ↦
          elim (Bool-cases (if active then t.shared_exp_active else not t.shared_exp_active)) [
            | inl e' ↦ rw (e, e') same
            | inr e' ↦
                rw (e, e')
                  (record {
                    same_members = λ r. refl;
                    same_invitees = refl;
                    still_distinct = own_distinct w q t h is;
                  })
          ]
    ]

pub player_enable_shared_party_experience-Returns :
    (env : Env) (w : World) (p : ℕ) (active : Bool)
    → IsConsistent w
    → Returns (player_enable_shared_party_experience env w p active)
unfolding player_enable_shared_party_experience
player_enable_shared_party_experience-Returns env w p active h =
    let outside : Bool = elim ((w.players p).in_protection_zone) [
      | none ↦ false
      | some zone ↦ not zone
    ] in
    from_party-Returns w p _ h (λ q t points there.
      elim (Bool-cases ((w.players p).in_fight && outside)) [
        | inl e ↦ rw e h
        | inr e ↦ rw e (
            put_party-IsConsistent w q t (set_shared_experience env w p active t).1 h there
              (set_shared_experience-SameParty env w q p active t h there))
      ])
