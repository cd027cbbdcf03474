-- ===== src/Party/Operations/Leadership.antt =====
-- The leadership of a party in src/party.cpp that is passed on.
use otservbr_global.Common.{
  ℕ, ◌≡◌, refl, inl, inr, true, false, not, ◌||◌, some, ◌∷◌, arith, ◌==◌, ==_iff, Bool-cases,
}
use otservbr_global.Party.{Party, World, Env, has, erase, points_to}
use otservbr_global.Party.Sets.{has-erase, erase-IsDistinct}
use otservbr_global.Party.Consistent.{
  IsConsistent, own_belongs, own_distinct, update_shared_experience_lem, member_of, IsDistinctParty,
}
use otservbr_global.Party.Operations.{pass_party_leadership}

-- The same players in another order of rank.
pub record SameParty (t t' : Party) : Type 0 where
  pub same_members : (p : ℕ) → member_of (some t') p ≡ member_of (some t) p
  pub same_invitees : t'.invite_list ≡ t.invite_list
  pub still_distinct : IsDistinctParty (some t')

-- The leadership goes to a member; the old leader becomes the first of the members.
pub pass_party_leadership-SameParty :
    (env : Env) (w : World) (q p : ℕ) (t : Party)
    → IsConsistent w
    → w.parties q ≡ some t
    → let t' = (pass_party_leadership env w q p t).1 in
      SameParty t t'
      × ((has p t.member_list ≡ true) → (t'.leader ≡ p) × (has t.leader t'.member_list ≡ true))
unfolding pass_party_leadership has
pass_party_leadership-SameParty env w q p t h is =
    let d = own_distinct w q t h is in
    let points = own_belongs w q t p h is in
    elim (Bool-cases ((t.leader == p) || not (points_to ((w.players p).party) q))) [
      | inl e ↦ rw e (
        record { same_members = λ r. refl; same_invitees = refl; still_distinct = d },
        λ m. absurd_of m e points d.0,
      )
      | inr e ↦
          let t' = record t { leader = p; member_list = t.leader ∷ erase p t.member_list } in
          let u = update_shared_experience_lem env w t' in
          let member : has p t.member_list ≡ true = ground (arith, points) in
          rw (e, u.1)
            (
              record {
                same_members = λ r. ground (arith, has-erase r p t.member_list d.1);
                same_invitees = refl;
                still_distinct = (
                  ground (arith, has-erase p p t.member_list d.1),
                  (
                    ground (arith, has-erase t.leader p t.member_list d.1),
                    erase-IsDistinct p t.member_list d.1,
                  ),
                  d.2,
                );
              },
              λ m. (refl, ground arith),
            )
    ]
  where
    absurd_of :
        (has p t.member_list ≡ true)
        → ((t.leader == p) || not (points_to ((w.players p).party) q)) ≡ true
        → points_to ((w.players p).party) q ≡ member_of (some t) p
        → has t.leader t.member_list ≡ false
        → (t.leader ≡ p) × (has t.leader t.member_list ≡ true)
    absurd_of m e points out = elim (Bool-cases (t.leader == p)) [
      | inl s ↦ absurd_list m ((==_iff t.leader p).0 s)
      | inr s ↦ ground (arith, points)
    ]
      where
        absurd_list :
            has p t.member_list ≡ true
            → t.leader ≡ p
            → (t.leader ≡ p) × (has t.leader t.member_list ≡ true)
        absurd_list m' same = (same, rw same m')
