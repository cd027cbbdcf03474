-- ===== src/Party/Operations/LastLeader.antt =====
-- The leader of a party in src/party.cpp leaves, and no other one takes over.
use otservbr_global.Common.{
  ℕ, ◌≡◌, refl, sym, ap, ◌∙◌, fun_ext, ◌≢◌, inl, inr, true, false, none, some, arith, ◌==◌,
  if◌then◌else◌, ==_iff, Bool-cases,
}
use otservbr_global.Party.{Player, Party, World, write_at, has, erase, points_to, set_party}
use otservbr_global.Party.Sets.{write_at_lem, write_at-field, has-erase}
use otservbr_global.Party.Consistent.{
  IsConsistent, own_belongs, own_invited, own_distinct, member_of, IsPresent, IsDistinctParty,
  points_to_unique,
}
use otservbr_global.Party.Operations.Dissolving.{Draining}
use otservbr_global.Party.Operations.Parting.{leave-IsPresent}

set_party-party : (x : Player) → (set_party none x).party ≡ none
unfolding set_party
set_party-party x = refl

set_party-invite_party_list :
    (x : Player) → (set_party none x).invite_party_list ≡ x.invite_party_list
unfolding set_party
set_party-invite_party_list x = refl

pub leaver_others :
    (w : World) (q p r : ℕ) (t : Party)
    → IsConsistent w
    → w.parties q ≡ some t
    → member_of (some t) p ≡ true
    → r ≢ q
    → false ≡ points_to ((w.players p).party) r
leaver_others w q p r t h is member ne =
    sym (points_to_unique ((w.players p).party) q r (own_belongs w q t p h is ∙ member) ne)

-- A leader has left the party `t`, which is stored as `t₂`, with a shorter list of members.
pub leader_left-Draining :
    (q p : ℕ) (t t₂ : Party) (w : World)
    → IsConsistent w
    → w.parties q ≡ some t
    → t.leader ≡ p
    → t₂.leader ≡ p
    → t₂.member_list ≡ erase p t.member_list
    → t₂.invite_list ≡ t.invite_list
    → Draining w
        (record {
          players = write_at p (set_party none (w.players p)) w.players;
          parties = write_at q (some t₂) w.parties;
          next_party = w.next_party;
        })
        q
        t₂
leader_left-Draining q p t t₂ w h is leads leads₂ members invites = record {
  others_party = λ r s ne. points r s ∙ others r s ne;
  covers = λ r e. points r q ∙ covered r e;
  members_only = λ r s ne e. points r s ∙ only r s ne e;
  others_invite = λ r s ne. invited r s;
  covers_invite = λ r e. invited r q ∙ (own_invited w q t r h is ∙ (ap (has r) (sym invites) ∙ e));
  present = λ r. rw (write_at_lem p x w.players r) (here r);
  parties_kept = fun_ext twice;
  next_kept = refl;
}
  where
    x : Player
    x = set_party none (w.players p)

    d : IsDistinctParty (some t)
    d = own_distinct w q t h is

    points :
        (r s : ℕ)
        → points_to ((write_at p x w.players r).party) s
          ≡ (if r == p then false else points_to ((w.players r).party) s)
    points r s =
        write_at-field (λ (y : Player). points_to y.party s) p x w.players r
        ∙ ap (λ o. if r == p then points_to o s else points_to ((w.players r).party) s)
            (set_party-party (w.players p))

    same_of : (r : ℕ) → r ≢ p → member_of (some t) r ≡ member_of (some t₂) r
    same_of r ne =
        ground (arith, leads, leads₂, ap (has r) members, has-erase r p t.member_list d.1)

    others :
        (r s : ℕ)
        → s ≢ q
        → (if r == p then false else points_to ((w.players r).party) s)
          ≡ points_to ((w.players r).party) s
    others r s ne = elim (Bool-cases (r == p)) [
      | inl e ↦ rw (e, (==_iff r p).0 e) (leaver_others w q p s t h is (ground (arith, leads)) ne)
      | inr e ↦ rw e refl
    ]

    covered :
        (r : ℕ)
        → member_of (some t₂) r ≡ false
        → (if r == p then false else points_to ((w.players r).party) q) ≡ false
    covered r out = elim (Bool-cases (r == p)) [
      | inl e ↦ rw e refl
      | inr e ↦ rw e (own_belongs w q t r h is ∙ (same_of r (ground arith) ∙ out))
    ]

    only :
        (r s : ℕ)
        → s ≢ q
        → member_of (some t₂) r ≡ true
        → (if r == p then false else points_to ((w.players r).party) s) ≡ false
    only r s ne listed = elim (Bool-cases (r == p)) [
      | inl e ↦ rw e refl
      | inr e ↦ rw e (
          points_to_unique ((w.players r).party) q s
            (own_belongs w q t r h is ∙ (same_of r (ground arith) ∙ listed)) ne)
    ]

    invited :
        (r s : ℕ)
        → has s ((write_at p x w.players r).invite_party_list)
          ≡ has s ((w.players r).invite_party_list)
    invited r s = elim (Bool-cases (r == p)) [
      | inl e ↦
          rw (write_at_lem p x w.players r, e, (==_iff r p).0 e)
            (ap (has s) (set_party-invite_party_list (w.players p)))
      | inr e ↦ rw (write_at_lem p x w.players r, e) refl
    ]

    here : (r : ℕ) → IsPresent (if r == p then x else w.players r)
    here r = elim (Bool-cases (r == p)) [
      | inl e ↦ rw e (leave-IsPresent (w.players p) (h.present p))
      | inr e ↦ rw e (h.present r)
    ]

    twice :
        (r : ℕ) → write_at q none (write_at q (some t₂) w.parties) r ≡ write_at q none w.parties r
    twice r = elim (Bool-cases (r == q)) [
      | inl e ↦
          rw
            (
              write_at_lem q none (write_at q (some t₂) w.parties) r,
              write_at_lem q none w.parties r,
              e,
            )
            refl
      | inr e ↦
          rw
            (
              write_at_lem q none (write_at q (some t₂) w.parties) r,
              write_at_lem q none w.parties r,
              write_at_lem q (some t₂) w.parties r,
              e,
            )
            refl
    ]
