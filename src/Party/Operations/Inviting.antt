-- ===== src/Party/Operations/Inviting.antt =====
-- Invitations to the parties of src/party.cpp keep the parties and the players in agreement.
use otservbr_global.Common.{
  ℕ, ◌+◌, ◌≡◌, refl, sym, ap, ◌∙◌, inl, inr, true, false, ◌||◌, none, some, [], ◌∷◌, ◌++◌, arith,
  ◌==◌, ==_iff, Bool-cases,
}
use otservbr_global.Party.{
  Player, Party, World, Env, write_at, has, erase, remove_all, points_to, set_party,
  add_party_invitation, remove_party_invitation, on_player, put_party, is_empty_party,
}
use otservbr_global.Party.Sets.{
  write_at_lem, has-append, has-remove_all, has-erase, erase-IsDistinct, append-IsDistinct,
}
use otservbr_global.Party.Consistent.{
  IsConsistent, Change, Change-IsConsistent, Change-at, address-lt, own_belongs, own_invited,
  own_distinct, update_shared_experience_lem, member_of, invitee_of, IsPresent,
}
use otservbr_global.Party.Operations.Dissolving.{disband-IsConsistent}
use otservbr_global.Party.Operations.Parting.{
  uninvite-IsPresent, remove_party_invitation-has, remove_party_invitation-has_other,
}
use otservbr_global.Party.Operations.{new_party, invite_player, remove_invite, join_party}

add_party_invitation-party : (q : ℕ) (x : Player) → (add_party_invitation q x).party ≡ x.party
unfolding add_party_invitation
add_party_invitation-party q x = ground arith

has-add_party_invitation :
    (q r : ℕ) (x : Player)
    → has r ((add_party_invitation q x).invite_party_list) ≡ (q == r) || has r x.invite_party_list
unfolding add_party_invitation has
has-add_party_invitation q r x = elim (Bool-cases (has q x.invite_party_list)) [
  | inl e ↦
      simp e (elim (Bool-cases (q == r)) [
        | inl s ↦ rw s (rw ((==_iff q r).0 s) at e)
        | inr s ↦ rw s refl
      ])
  | inr e ↦ simp e refl
]

add_party_invitation-IsPresent :
    (q : ℕ) (x : Player) → x.is_online ≡ true → IsPresent (add_party_invitation q x)
unfolding add_party_invitation
add_party_invitation-IsPresent q x on off = ground arith

-- An invitation keeps the agreement, for a player who is online.
pub invite_player-IsConsistent :
    (q p : ℕ) (t : Party) (w : World)
    → IsConsistent w
    → w.parties q ≡ some t
    → (w.players p).is_online ≡ true
    → IsConsistent (invite_player q p t w).1
unfolding invite_player on_player put_party has
invite_player-IsConsistent q p t w h is on = elim (Bool-cases (has p t.invite_list)) [
  | inl e ↦ rw e h
  | inr e ↦
      let player = w.players p in
      let x = add_party_invitation q player in
      let d = own_distinct w q t h is in
      let t' = record t { invite_list = t.invite_list ++ (p ∷ []) } in
      let same = add_party_invitation-party q player in
      let change : Change w (write_at p x w.players) q (some t') =
        Change-at w p x q (some t') h (λ r ne. ap (λ o. points_to o r) same)
          (ap (λ o. points_to o q) same ∙ own_belongs w q t p h is)
          (λ r ne. own_belongs w q t r h is)
          (λ r ne. ground (arith, has-add_party_invitation q r player))
          (ground (arith, has-add_party_invitation q q player, has-append p t.invite_list (p ∷ [])))
          (λ r ne. ground (arith, own_invited w q t r h is, has-append r t.invite_list (p ∷ [])))
          (d.0, d.1, append-IsDistinct p t.invite_list d.2 e)
          (add_party_invitation-IsPresent q player on) in
      rw e (Change-IsConsistent w _ q w.next_party _ h change (omega arith) (address-lt w q t h is))
]

-- A player who joins is online and has no party.
pub join_party-IsConsistent :
    (env : Env) (q p : ℕ) (t : Party) (w : World)
    → IsConsistent w
    → w.parties q ≡ some t
    → (w.players p).is_online ≡ true
    → (w.players p).party ≡ none
    → IsConsistent (join_party env q p t w).1
unfolding join_party on_player put_party set_party remove_party_invitation has
join_party-IsConsistent env q p t w h is on free = elim (Bool-cases (env.on_join q p)) [
  | inr e ↦ rw e h
  | inl e ↦ elim (Bool-cases (has p t.invite_list)) [
    | inr e' ↦ rw (e, e') h
    | inl e' ↦
        let player = w.players p in
        let x = record player {
          party = some q;
          invite_party_list = remove_all q player.invite_party_list;
        } in
        let d = own_distinct w q t h is in
        let w' = record w { players = write_at p x w.players } in
        let t' = record t {
          invite_list = erase p t.invite_list;
          member_list = t.member_list ++ (p ∷ []);
        } in
        let (b, updated) = update_shared_experience_lem env w' t' in
        let apart : member_of (some t) p ≡ false =
          sym (own_belongs w q t p h is) ∙ ap (λ o. points_to o q) free in
        let change : Change w (write_at p x w.players) q
            (some (record t' { shared_exp_enabled = b })) =
          Change-at w p x q _ h
            (λ r ne.
              let other : (q == r) ≡ false = ground arith in
              rw other (ap (λ o. points_to o r) (sym free)))
            (ground (arith, has-append p t.member_list (p ∷ [])))
            (λ r ne. own_belongs w q t r h is ∙ ground (arith, has-append r t.member_list (p ∷ [])))
            (λ r ne. ground (arith, has-remove_all r q player.invite_party_list))
            (ground
              (arith, has-remove_all q q player.invite_party_list, has-erase p p t.invite_list d.2))
            (λ r ne. own_invited w q t r h is ∙ ground (arith, has-erase r p t.invite_list d.2))
            (
              ground (arith, d.0, has-append t.leader t.member_list (p ∷ [])),
              append-IsDistinct p t.member_list d.1 (ground arith),
              erase-IsDistinct p t.invite_list d.2,
            )
            (λ off. ground (arith, on, off)) in
        rw (e, e', updated)
          (Change-IsConsistent w _ q w.next_party _ h change (omega arith) (address-lt w q t h is))
  ]
]

-- An invitation that is taken back leaves both sides, and the party where it was the last trace.
pub remove_invite-IsConsistent :
    (env : Env) (q p : ℕ) (t : Party) (w : World)
    → IsConsistent w
    → w.parties q ≡ some t
    → IsConsistent (remove_invite env q p true t w).1
unfolding remove_invite on_player put_party
remove_invite-IsConsistent env q p t w h is = elim (Bool-cases (has p t.invite_list)) [
  | inr e ↦ rw e h
  | inl e ↦
      let player = w.players p in
      let x = remove_party_invitation q player in
      let d = own_distinct w q t h is in
      let t' = record t { invite_list = erase p t.invite_list } in
      let same : x.party ≡ player.party = unfold remove_party_invitation in refl in
      let change : Change w (write_at p x w.players) q (some t') =
        Change-at w p x q (some t') h (λ r ne. ap (λ o. points_to o r) same)
          (ap (λ o. points_to o q) same ∙ own_belongs w q t p h is)
          (λ r ne. own_belongs w q t r h is)
          (λ r ne. remove_party_invitation-has_other q r player ne)
          (remove_party_invitation-has q player ∙ ground (arith, has-erase p p t.invite_list d.2))
          (λ r ne. own_invited w q t r h is ∙ ground (arith, has-erase r p t.invite_list d.2))
          (d.0, d.1, erase-IsDistinct p t.invite_list d.2)
          (uninvite-IsPresent q player (h.present p)) in
      let w' : World = record {
        players = write_at p x w.players;
        parties = write_at q (some t') w.parties;
        next_party = w.next_party;
      } in
      let kept : IsConsistent w' =
        Change-IsConsistent w _ q w.next_party _ h change (omega arith) (address-lt w q t h is) in
      let there : w'.parties q ≡ some t' = write_at_lem q (some t') w.parties q ∙ ground arith in
      rw e (elim (Bool-cases (is_empty_party t')) [
        | inl e' ↦ rw e' (disband-IsConsistent env q t' w' kept there)
        | inr e' ↦ rw e' kept
      ])
]

-- A new party has its leader alone, who had none.
pub new_party-IsConsistent :
    (p : ℕ) (w : World)
    → IsConsistent w
    → (w.players p).is_online ≡ true
    → (w.players p).party ≡ none
    → IsConsistent (new_party p w)
      × ((t : Party) × ((new_party p w).parties w.next_party ≡ some t) × (t.leader ≡ p))
unfolding new_party on_player put_party set_party has
new_party-IsConsistent p w h on free =
    let q = w.next_party in
    let player = w.players p in
    let x = record player { party = some q } in
    let gone : w.parties q ≡ none = h.fresh q (omega arith) in
    let nobody : (r : ℕ) → points_to ((w.players r).party) q ≡ false =
      λ r. h.belongs r q ∙ ap (λ o. member_of o r) gone in
    let uninvited : (r : ℕ) → has q ((w.players r).invite_party_list) ≡ false =
      λ r. h.invited r q ∙ ap (λ o. invitee_of o r) gone in
    let t : Party = record {
      leader = p;
      member_list = [];
      invite_list = [];
      ticks_map = λ r. none;
      shared_exp_active = false;
      shared_exp_enabled = false;
    } in
    let change : Change w (write_at p x w.players) q (some t) =
      Change-at w p x q (some t) h
        (λ r ne.
          let other : (q == r) ≡ false = ground arith in
          rw other (ap (λ o. points_to o r) (sym free)))
        (ground arith) (λ r ne. nobody r ∙ ground arith) (λ r ne. refl) (uninvited p)
        (λ r ne. uninvited r) (refl, tt, tt) (λ off. ground (arith, on, off)) in
    (
      Change-IsConsistent w _ q (q + 1) _ h change (omega arith) (omega arith),
      (t, write_at_lem q (some t) w.parties q ∙ ground arith, refl),
    )
