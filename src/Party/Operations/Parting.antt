-- ===== src/Party/Operations/Parting.antt =====
-- The players after each part of `disband` of src/party.cpp.
use otservbr_global.Common.{
  ℕ, ◌≡◌, refl, ap, ◌∙◌, ◌≢◌, ◌⊎◌, inl, inr, Bool, true, false, none, some, List, arith, ◌==◌,
  if◌then◌else◌, ==_iff, Bool-cases,
}
use otservbr_global.Party.{
  Player, Party, World, has, remove_all, points_to, set_party, remove_party_invitation, on_player,
  on_players,
}
use otservbr_global.Party.Sets.{has-remove_all, write_at-field}
use otservbr_global.Party.Consistent.{member_of, IsPresent}
use otservbr_global.Party.Operations.Everyone.{on_players-kept, on_players-set, on_players-missed}

pub leave-IsPresent : (x : Player) → IsPresent x → IsPresent (set_party none x)
unfolding set_party
leave-IsPresent x h off = (refl, (h off).1)

pub uninvite-IsPresent :
    (q : ℕ) (x : Player) → IsPresent x → IsPresent (remove_party_invitation q x)
unfolding remove_party_invitation remove_all
uninvite-IsPresent q x h off = ((h off).0, ap (remove_all q) (h off).1)

pub remove_party_invitation-has :
    (q : ℕ) (x : Player) → has q ((remove_party_invitation q x).invite_party_list) ≡ false
unfolding remove_party_invitation
remove_party_invitation-has q x = ground (arith, has-remove_all q q x.invite_party_list)

pub remove_party_invitation-has_other :
    (q r : ℕ) (x : Player)
    → r ≢ q
    → has r ((remove_party_invitation q x).invite_party_list) ≡ has r x.invite_party_list
unfolding remove_party_invitation
remove_party_invitation-has_other q r x ne = ground (arith, has-remove_all r q x.invite_party_list)

abbrev pub points : ℕ → Player → Bool
points r x = points_to x.party r

-- The players after each part of `dissolve`.
module _ (q : ℕ) (t : Party) (w : World) where
  abbrev pub first : World
  first = on_player t.leader (set_party none) w

  abbrev pub second : World
  second = on_players t.invite_list (remove_party_invitation q) first

  abbrev pub third : World
  third = on_players t.member_list (set_party none) second

  pub second-points :
      (p r : ℕ)
      → points r (second.players p) ≡ (if p == t.leader then false else points r (w.players p))
  unfolding on_player set_party remove_party_invitation
  second-points p r =
      on_players-kept (points r) t.invite_list (remove_party_invitation q) first p (λ x. refl)
      ∙ write_at-field (points r) t.leader (set_party none (w.players t.leader)) w.players p

  pub third-points_listed :
      (p r : ℕ)
      → (member_of (some t) p ≡ true) ⊎ (points r (w.players p) ≡ false)
      → points r (third.players p) ≡ false
  third-points_listed p r c =
      on_players-set (points r) false t.member_list (set_party none) second p
        (λ x. unfold set_party in refl) (listed c)
    where
      listed :
          (member_of (some t) p ≡ true) ⊎ (points r (w.players p) ≡ false)
          → (has p t.member_list ≡ true) ⊎ (points r (second.players p) ≡ false)
      listed c' = elim (Bool-cases (p == t.leader)) [
        | inl e ↦ inr (second-points p r ∙ rw e refl)
        | inr e ↦ elim c' [
          | inl member ↦ inl (ground arith)
          | inr out ↦ inr (second-points p r ∙ rw e out)
        ]
      ]

  pub third-points_unlisted :
      (p r : ℕ) → member_of (some t) p ≡ false → points r (third.players p) ≡ points r (w.players p)
  third-points_unlisted p r out =
      let not_leader : (p == t.leader) ≡ false = ground arith in
      ap (points r) (on_players-missed t.member_list (set_party none) second p (ground arith))
      ∙ (second-points p r ∙ rw not_leader refl)

  pub third-invites_kept :
      {B : Type 0} (g : List ℕ → B) (p : ℕ)
      → ((x : Player) → g ((remove_party_invitation q x).invite_party_list) ≡ g x.invite_party_list)
      → g ((third.players p).invite_party_list) ≡ g ((w.players p).invite_party_list)
  unfolding on_player set_party
  third-invites_kept g p h =
      on_players-kept (λ x. g x.invite_party_list) t.member_list (set_party none) second p
        (λ x. refl)
      ∙ (on_players-kept (λ x. g x.invite_party_list) t.invite_list (remove_party_invitation q)
            first p h
          ∙ (write_at-field (λ (x : Player). g x.invite_party_list) t.leader
                (set_party none (w.players t.leader)) w.players p
              ∙ same))
    where
      same :
          (if p == t.leader
            then g ((w.players t.leader).invite_party_list)
            else g ((w.players p).invite_party_list))
          ≡ g ((w.players p).invite_party_list)
      same = elim (Bool-cases (p == t.leader)) [
        | inl e ↦ rw (e, (==_iff p t.leader).0 e) refl
        | inr e ↦ rw e refl
      ]

  pub first-invites :
      (p r : ℕ)
      → has r ((first.players p).invite_party_list) ≡ has r ((w.players p).invite_party_list)
  unfolding on_player set_party
  first-invites p r =
      write_at-field (λ (x : Player). has r x.invite_party_list) t.leader
        (set_party none (w.players t.leader)) w.players p
      ∙ elim (Bool-cases (p == t.leader)) [
        | inl e ↦ rw (e, (==_iff p t.leader).0 e) refl
        | inr e ↦ rw e refl
      ]

  pub third-invites_own :
      (p : ℕ)
      → (has p t.invite_list ≡ false → has q ((w.players p).invite_party_list) ≡ false)
      → has q ((third.players p).invite_party_list) ≡ false
  third-invites_own p covered =
      on_players-kept (λ x. has q x.invite_party_list) t.member_list (set_party none) second p
        (λ x. unfold set_party in refl)
      ∙ on_players-set (λ x. has q x.invite_party_list) false t.invite_list
          (remove_party_invitation q) first p removed
          (elim (Bool-cases (has p t.invite_list)) [
            | inl e ↦ inl e
            | inr e ↦ inr (first-invites p q ∙ covered e)
          ])
    where
      removed : (x : Player) → has q ((remove_party_invitation q x).invite_party_list) ≡ false
      removed x = remove_party_invitation-has q x
