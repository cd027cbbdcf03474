-- ===== src/Party/Consistent.antt =====
-- When the parties of src/party.cpp and the players' own members agree, and what an operation on one
-- party has to keep.
use otservbr_global.Common.{
  ℕ, ◌≤◌, ◌<◌, ◌≡◌, refl, ap, ◌∙◌, ◌≢◌, inl, inr, Bool, true, false, ◌||◌, Option, none, some, [],
  arith, ◌==◌, if◌then◌else◌, ==_iff, Bool-cases,
}
use mathlib.Core.Path.{subst}
use otservbr_global.Party.{
  Env, update_shared_experience, can_enable, clear_found, clear_player_points, Player, Party, World,
  write_at, has, points_to,
}
use otservbr_global.Party.Sets.{IsDistinct, write_at_lem, write_at-field}

-- The leader and the members of the party at an address.
abbrev pub member_of : Option Party → ℕ → Bool
member_of none p = false
member_of (some t) p = (t.leader == p) || has p t.member_list

abbrev pub invitee_of : Option Party → ℕ → Bool
invitee_of none p = false
invitee_of (some t) p = has p t.invite_list

abbrev pub IsDistinctParty : Option Party → Type 0
IsDistinctParty none = Unit {0}
IsDistinctParty (some t) =
    (has t.leader t.member_list ≡ false) × IsDistinct t.member_list × IsDistinct t.invite_list

-- Players who are gone have no party and no invitation left.
abbrev pub IsPresent : Player → Type 0
IsPresent x = x.is_online ≡ false → (x.party ≡ none) × (x.invite_party_list ≡ [])

-- A player points to a party exactly if the party lists that player, or has it as leader; a player
-- holds an invitation exactly if the party lists it; no party lists a player twice; nobody who is gone
-- is listed; addresses from `next_party` on hold no party.
pub record IsConsistent (w : World) : Type 0 where
  pub belongs : (p q : ℕ) → points_to ((w.players p).party) q ≡ member_of (w.parties q) p
  pub invited : (p q : ℕ) → has q ((w.players p).invite_party_list) ≡ invitee_of (w.parties q) p
  pub distinct : (q : ℕ) → IsDistinctParty (w.parties q)
  pub present : (p : ℕ) → IsPresent (w.players p)
  pub fresh : (q : ℕ) → w.next_party ≤ q → w.parties q ≡ none

-- The players change with the party at one address alone.
pub record Change (w : World) (players' : ℕ → Player) (q : ℕ) (o : Option Party) : Type 0 where
  pub others_party :
      (p r : ℕ) → r ≢ q → points_to ((players' p).party) r ≡ points_to ((w.players p).party) r
  pub own_party : (p : ℕ) → points_to ((players' p).party) q ≡ member_of o p
  pub others_invite :
      (p r : ℕ)
      → r ≢ q
      → has r ((players' p).invite_party_list) ≡ has r ((w.players p).invite_party_list)
  pub own_invite : (p : ℕ) → has q ((players' p).invite_party_list) ≡ invitee_of o p
  pub distinct' : IsDistinctParty o
  pub present' : (p : ℕ) → IsPresent (players' p)

pub Change-IsConsistent :
    (w : World) (players' : ℕ → Player) (q next : ℕ) (o : Option Party)
    → IsConsistent w
    → Change w players' q o
    → w.next_party ≤ next
    → q < next
    → IsConsistent
        (record { players = players'; parties = write_at q o w.parties; next_party = next })
Change-IsConsistent w players' q next o h c le lt = record {
  belongs = λ p r. rw (write_at_lem q o w.parties r) (belongs' p r);
  invited = λ p r. rw (write_at_lem q o w.parties r) (invited' p r);
  distinct = λ r. rw (write_at_lem q o w.parties r) (distinct'' r);
  present = c.present';
  fresh = λ r out. rw (write_at_lem q o w.parties r) (fresh' r out);
}
  where
    belongs' :
        (p r : ℕ)
        → points_to ((players' p).party) r ≡ member_of (if r == q then o else w.parties r) p
    belongs' p r = elim (Bool-cases (r == q)) [
      | inl e ↦ rw (e, (==_iff r q).0 e) (c.own_party p)
      | inr e ↦ rw e (c.others_party p r (ground arith) ∙ h.belongs p r)
    ]

    invited' :
        (p r : ℕ)
        → has r ((players' p).invite_party_list) ≡ invitee_of (if r == q then o else w.parties r) p
    invited' p r = elim (Bool-cases (r == q)) [
      | inl e ↦ rw (e, (==_iff r q).0 e) (c.own_invite p)
      | inr e ↦ rw e (c.others_invite p r (ground arith) ∙ h.invited p r)
    ]

    distinct'' : (r : ℕ) → IsDistinctParty (if r == q then o else w.parties r)
    distinct'' r = elim (Bool-cases (r == q)) [
      | inl e ↦ rw e c.distinct'
      | inr e ↦ rw e (h.distinct r)
    ]

    fresh' : (r : ℕ) → next ≤ r → (if r == q then o else w.parties r) ≡ none
    fresh' r out = let other : (r == q) ≡ false = ground arith in rw other (h.fresh r (omega arith))

-- A party that is there has an address that was given out.
pub address-lt :
    (w : World) (q : ℕ) (t : Party) → IsConsistent w → w.parties q ≡ some t → q < w.next_party
address-lt w q t h is = ground (arith, h.fresh q)

pub own_belongs :
    (w : World) (q : ℕ) (t : Party) (p : ℕ)
    → IsConsistent w
    → w.parties q ≡ some t
    → points_to ((w.players p).party) q ≡ member_of (some t) p
own_belongs w q t p h is = h.belongs p q ∙ ap (λ o. member_of o p) is

pub own_invited :
    (w : World) (q : ℕ) (t : Party) (p : ℕ)
    → IsConsistent w
    → w.parties q ≡ some t
    → has q ((w.players p).invite_party_list) ≡ has p t.invite_list
own_invited w q t p h is = h.invited p q ∙ ap (λ o. invitee_of o p) is

pub own_distinct :
    (w : World) (q : ℕ) (t : Party)
    → IsConsistent w
    → w.parties q ≡ some t
    → IsDistinctParty (some t)
own_distinct w q t h is = subst IsDistinctParty is (h.distinct q)

-- A player points to one party at most.
pub points_to_unique :
    (o : Option ℕ) (q r : ℕ) → points_to o q ≡ true → r ≢ q → points_to o r ≡ false
points_to_unique none q r h ne = refl
points_to_unique (some s) q r h ne = ground arith

-- The change of one player, and of the party at one address.
pub Change-at :
    (w : World) (p : ℕ) (x : Player) (q : ℕ) (o : Option Party)
    → IsConsistent w
    → ((r : ℕ) → r ≢ q → points_to x.party r ≡ points_to ((w.players p).party) r)
    → (points_to x.party q ≡ member_of o p)
    → ((r : ℕ) → r ≢ p → points_to ((w.players r).party) q ≡ member_of o r)
    → ((r : ℕ) → r ≢ q → has r x.invite_party_list ≡ has r ((w.players p).invite_party_list))
    → (has q x.invite_party_list ≡ invitee_of o p)
    → ((r : ℕ) → r ≢ p → has q ((w.players r).invite_party_list) ≡ invitee_of o r)
    → IsDistinctParty o
    → IsPresent x
    → Change w (write_at p x w.players) q o
Change-at w p x q o h party_others party_own party_rest invite_others invite_own invite_rest d
      here =
    record {
      others_party = λ r s ne.
          write_at-field (λ (y : Player). points_to y.party s) p x w.players r ∙ at_party r s ne;
      own_party =
          λ r. write_at-field (λ (y : Player). points_to y.party q) p x w.players r ∙ own_at r;
      others_invite = λ r s ne.
          write_at-field (λ (y : Player). has s y.invite_party_list) p x w.players r
          ∙ at_invite r s ne;
      own_invite = λ r.
          write_at-field (λ (y : Player). has q y.invite_party_list) p x w.players r ∙ invite_at r;
      distinct' = d;
      present' = λ r. rw (write_at_lem p x w.players r) (present_at r);
    }
  where
    at_party :
        (r s : ℕ)
        → s ≢ q
        → (if r == p then points_to x.party s else points_to ((w.players r).party) s)
          ≡ points_to ((w.players r).party) s
    at_party r s ne = elim (Bool-cases (r == p)) [
      | inl e ↦ rw (e, (==_iff r p).0 e) (party_others s ne)
      | inr e ↦ rw e refl
    ]

    own_at :
        (r : ℕ)
        → (if r == p then points_to x.party q else points_to ((w.players r).party) q)
          ≡ member_of o r
    own_at r = elim (Bool-cases (r == p)) [
      | inl e ↦ rw (e, (==_iff r p).0 e) party_own
      | inr e ↦ rw e (party_rest r (ground arith))
    ]

    at_invite :
        (r s : ℕ)
        → s ≢ q
        → (if r == p then has s x.invite_party_list else has s ((w.players r).invite_party_list))
          ≡ has s ((w.players r).invite_party_list)
    at_invite r s ne = elim (Bool-cases (r == p)) [
      | inl e ↦ rw (e, (==_iff r p).0 e) (invite_others s ne)
      | inr e ↦ rw e refl
    ]

    invite_at :
        (r : ℕ)
        → (if r == p then has q x.invite_party_list else has q ((w.players r).invite_party_list))
          ≡ invitee_of o r
    invite_at r = elim (Bool-cases (r == p)) [
      | inl e ↦ rw (e, (==_iff r p).0 e) invite_own
      | inr e ↦ rw e (invite_rest r (ground arith))
    ]

    present_at : (r : ℕ) → IsPresent (if r == p then x else w.players r)
    present_at r = elim (Bool-cases (r == p)) [ inl e ↦ rw e here | inr e ↦ rw e (h.present r) ]

-- The shared experience leaves the leader and the lists alone.
pub update_shared_experience_lem :
    (env : Env) (w : World) (t : Party)
    → (b : Bool) × (update_shared_experience env w t ≡ record t { shared_exp_enabled = b })
unfolding update_shared_experience
update_shared_experience_lem env w t =
    let chosen : Bool → Party =
      λ b. if b then record t { shared_exp_enabled = can_enable env w t } else t in
    elim (Bool-cases t.shared_exp_active) [
      | inl e ↦ (can_enable env w t, ap chosen e)
      | inr e ↦ (t.shared_exp_enabled, ap chosen e)
    ]

clear_found_lem :
    (env : Env) (w : World) (p : ℕ) (t : Party) (o : Option ℕ)
    → (ticks : ℕ → Option ℕ) × (b : Bool) × (clear_found env w p t o
        ≡ record t { ticks_map = ticks; shared_exp_enabled = b })
unfolding clear_found
clear_found_lem env w p t none = (t.ticks_map, t.shared_exp_enabled, refl)
clear_found_lem env w p t (some tick) =
    let ticks = write_at p none t.ticks_map in
    let u = update_shared_experience_lem env w (record t { ticks_map = ticks }) in (ticks, u.0, u.1)

-- So do the ticks.
pub clear_player_points_lem :
    (env : Env) (w : World) (p : ℕ) (t : Party)
    → (ticks : ℕ → Option ℕ) × (b : Bool) × (clear_player_points env w p t
        ≡ record t { ticks_map = ticks; shared_exp_enabled = b })
unfolding clear_player_points
clear_player_points_lem env w p t = clear_found_lem env w p t (t.ticks_map p)
