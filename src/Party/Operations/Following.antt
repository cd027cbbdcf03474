-- ===== src/Party/Operations/Following.antt =====
-- What the player actions of src/game.cpp do first: they follow a player's pointer to a party.
use otservbr_global.Common.{
  ℕ, ◌≡◌, refl, sym, ap, ◌∙◌, inl, inr, Bool, false, ◌&&◌, Option, none, some, arith, ◌==◌,
  Bool-cases, Option-cases,
}
use mathlib.Core.Path.{subst}
use otservbr_global.Party.{Party, World, has, points_to, put_party}
use otservbr_global.Party.Consistent.{
  IsConsistent, Change-IsConsistent, address-lt, own_belongs, own_invited, member_of,
}
use otservbr_global.Party.Operations.{with_party, is_inviting, from_party}
use otservbr_global.Party.Operations.Leadership.{SameParty}

-- The result is a world, and a consistent one.
abbrev pub Returns : Option World → Type 0
Returns none = ⊥
Returns (some w) = IsConsistent w

-- A pointer that a player holds leads to a party.
pub party_there :
    (w : World) (p q : ℕ)
    → IsConsistent w
    → (w.players p).party ≡ some q
    → (t : Party) × (w.parties q ≡ some t)
party_there w p q h points = elim (Option-cases (w.parties q)) [
  | inl gone ↦ absurd_of (sym (h.belongs p q) ∙ ap (λ o. points_to o q) points) gone
  | inr there ↦ there
]
  where
    absurd_of :
        member_of (w.parties q) p ≡ points_to (some q) q
        → w.parties q ≡ none
        → (t : Party) × (w.parties q ≡ some t)
    absurd_of e gone = absurd (ground (arith, ap (λ o. member_of o p) gone))

-- A party that changes its leader or its settings, with the same players.
pub put_party-IsConsistent :
    (w : World) (q : ℕ) (t t' : Party)
    → IsConsistent w
    → w.parties q ≡ some t
    → SameParty t t'
    → IsConsistent (put_party q (some t') w)
unfolding put_party
put_party-IsConsistent w q t t' h is same =
    Change-IsConsistent w w.players q w.next_party (some t') h
      (record {
        others_party = λ p r ne. refl;
        own_party = λ p. own_belongs w q t p h is ∙ sym (same.same_members p);
        others_invite = λ p r ne. refl;
        own_invite = λ p. own_invited w q t p h is ∙ ap (has p) (sym same.same_invitees);
        distinct' = same.still_distinct;
        present' = h.present;
      })
      (omega arith) (address-lt w q t h is)

pub with_party-Returns_there :
    (w : World) (q : ℕ) (t : Party) (f : Party → Option World)
    → w.parties q ≡ some t
    → Returns (f t)
    → Returns (with_party w q f)
unfolding with_party
with_party-Returns_there w q t f there next =
    subst (λ o. Returns (elim o [ none ↦ none | some t' ↦ f t' ])) (sym there) next

pub with_party-Returns :
    (w : World) (p q : ℕ) (f : Party → Option World)
    → IsConsistent w
    → (w.players p).party ≡ some q
    → ((t : Party) → w.parties q ≡ some t → Returns (f t))
    → Returns (with_party w q f)
with_party-Returns w p q f h points next =
    let (t, there) = party_there w p q h points in
    with_party-Returns_there w q t f there (next t there)

pub from_party-Returns :
    (w : World) (p : ℕ) (f : ℕ → Party → Option World)
    → IsConsistent w
    → ((q : ℕ) (t : Party) → (w.players p).party ≡ some q → w.parties q ≡ some t → Returns (f q t))
    → Returns (from_party w p f)
unfolding from_party
from_party-Returns w p f h next = elim (Bool-cases (w.players p).is_online) [
  | inr e ↦ rw e h
  | inl e ↦ elim (Option-cases ((w.players p).party)) [
    | inl o ↦ rw (e, o) h
    | inr s ↦
        rw (e, s.1)
          (with_party-Returns w p s.0 (λ t. f s.0 t) h s.1 (λ t there. next s.0 t s.1 there))
  ]
]

-- A question to a player about an invitation follows no dangling pointer.
pub is_inviting_total :
    (w : World) (a b : ℕ) → IsConsistent w → (answer : Bool) × (is_inviting w a b ≡ some answer)
unfolding is_inviting with_party
is_inviting_total w a b h = elim (Option-cases ((w.players a).party)) [
  | inl o ↦ (false, rw (is_inviting, o) refl)
  | inr s ↦
      let (t, there) = party_there w a s.0 h s.1 in
      ((t.leader == a) && has b t.invite_list, rw (is_inviting, s.1, with_party, there) refl)
]
