-- ===== src/Party/Operations/Dissolving.antt =====
-- The end of a party in src/party.cpp leaves no pointer to it behind.
use otservbr_global.Common.{
  ℕ, ◌<◌, ◌≡◌, refl, sym, ap, ap₂, ◌∙◌, ◌≢◌, inl, inr, true, false, Option, none, some, arith,
  Bool-cases,
}
use mathlib.Core.Path.{subst}
use otservbr_global.Party.{
  Party, World, Env, write_at, has, points_to, set_party, remove_party_invitation, on_player,
  put_party,
}
use otservbr_global.Party.Consistent.{
  IsConsistent, Change, Change-IsConsistent, address-lt, own_belongs, own_invited, member_of,
  IsPresent, points_to_unique,
}
use otservbr_global.Party.Operations.{dissolve, disband}
use otservbr_global.Party.Operations.Everyone.{on_players-parties, on_player-all, on_players-all}
use otservbr_global.Party.Operations.Parting.{
  leave-IsPresent, uninvite-IsPresent, remove_party_invitation-has_other, first, second, third,
  third-points_listed, third-points_unlisted, third-invites_kept, third-invites_own,
}

-- A world on its way to losing the party at `q`, compared with a consistent one: whoever points to the
-- party is listed in it, and nothing else has changed.
pub record Draining (w₀ w : World) (q : ℕ) (t : Party) : Type 0 where
  pub others_party :
      (p r : ℕ) → r ≢ q → points_to ((w.players p).party) r ≡ points_to ((w₀.players p).party) r
  pub covers : (p : ℕ) → member_of (some t) p ≡ false → points_to ((w.players p).party) q ≡ false
  pub members_only :
      (p r : ℕ) → r ≢ q → member_of (some t) p ≡ true → points_to ((w.players p).party) r ≡ false
  pub others_invite :
      (p r : ℕ)
      → r ≢ q
      → has r ((w.players p).invite_party_list) ≡ has r ((w₀.players p).invite_party_list)
  pub covers_invite :
      (p : ℕ) → has p t.invite_list ≡ false → has q ((w.players p).invite_party_list) ≡ false
  pub present : (p : ℕ) → IsPresent (w.players p)
  pub parties_kept : write_at q none w.parties ≡ write_at q none w₀.parties
  pub next_kept : w.next_party ≡ w₀.next_party

dissolve-shape :
    (q : ℕ) (t : Party) (w w₀ : World)
    → write_at q none w.parties ≡ write_at q none w₀.parties
    → w.next_party ≡ w₀.next_party
    → dissolve q t w ≡ record {
      players = (third q t w).players;
      parties = write_at q none w₀.parties;
      next_party = w₀.next_party;
    }
unfolding dissolve put_party
dissolve-shape q t w w₀ parties next =
    let c = on_players-parties t.member_list (set_party none) (second q t w) in
    let b = on_players-parties t.invite_list (remove_party_invitation q) (first q t w) in
    let a : ((first q t w).parties ≡ w.parties) × ((first q t w).next_party ≡ w.next_party) =
      unfold on_player in (refl, refl) in
    let build : (ℕ → Option Party) → ℕ → World =
      λ ps n. record { players = (third q t w).players; parties = ps; next_party = n } in
    ap₂ build (ap (write_at q none) (c.0 ∙ (b.0 ∙ a.0)) ∙ parties) (c.1 ∙ (b.1 ∙ (a.1 ∙ next)))

-- Once a party is dissolved, no player points to it or holds an invitation of it, and all else is as it
-- was.
pub dissolve-IsConsistent :
    (w₀ w : World) (q : ℕ) (t : Party)
    → IsConsistent w₀
    → q < w₀.next_party
    → Draining w₀ w q t
    → IsConsistent (dissolve q t w)
dissolve-IsConsistent w₀ w q t h lt d =
    subst IsConsistent (sym shape)
      (Change-IsConsistent w₀ (third q t w).players q w₀.next_party none h change (omega arith) lt)
  where
    shape : dissolve q t w ≡ record {
      players = (third q t w).players;
      parties = write_at q none w₀.parties;
      next_party = w₀.next_party;
    }
    shape = dissolve-shape q t w w₀ d.parties_kept d.next_kept

    change : Change w₀ (third q t w).players q none
    change = record {
      others_party = λ p r ne. elim (Bool-cases (member_of (some t) p)) [
        | inl e ↦
            third-points_listed q t w p r (inl e)
            ∙ (sym (d.members_only p r ne e) ∙ d.others_party p r ne)
        | inr e ↦ third-points_unlisted q t w p r e ∙ d.others_party p r ne
      ];
      own_party = λ p. elim (Bool-cases (member_of (some t) p)) [
        | inl e ↦ third-points_listed q t w p q (inl e)
        | inr e ↦ third-points_listed q t w p q (inr (d.covers p e))
      ];
      others_invite = λ p r ne.
          third-invites_kept q t w (has r) p (λ x. remove_party_invitation-has_other q r x ne)
          ∙ d.others_invite p r ne;
      own_invite = λ p. third-invites_own q t w p (d.covers_invite p);
      distinct' = tt;
      present' =
          on_players-all IsPresent t.member_list (set_party none) (second q t w) leave-IsPresent (
            on_players-all IsPresent t.invite_list (remove_party_invitation q) (first q t w)
              (uninvite-IsPresent q)
              (on_player-all IsPresent t.leader (set_party none) w leave-IsPresent d.present));
    }

-- A consistent world in which the party stands.
pub Draining-IsConsistent :
    (w : World) (q : ℕ) (t : Party) → IsConsistent w → w.parties q ≡ some t → Draining w w q t
Draining-IsConsistent w q t h is = record {
  others_party = λ p r ne. refl;
  covers = λ p e. own_belongs w q t p h is ∙ e;
  members_only =
      λ p r ne e. points_to_unique ((w.players p).party) q r (own_belongs w q t p h is ∙ e) ne;
  others_invite = λ p r ne. refl;
  covers_invite = λ p e. own_invited w q t p h is ∙ e;
  present = h.present;
  parties_kept = refl;
  next_kept = refl;
}

-- Whatever the scripts say, `disband` keeps the agreement.
pub disband-IsConsistent :
    (env : Env) (q : ℕ) (t : Party) (w : World)
    → IsConsistent w
    → w.parties q ≡ some t
    → IsConsistent (disband env q t w)
unfolding disband
disband-IsConsistent env q t w h is = elim (Bool-cases (env.on_disband q)) [
  | inl e ↦
      rw e
        (dissolve-IsConsistent w w q t h (address-lt w q t h is) (Draining-IsConsistent w q t h is))
  | inr e ↦ rw e h
]
