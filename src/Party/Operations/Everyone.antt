-- ===== src/Party/Operations/Everyone.antt =====
-- One method of many players at once, as `disband` of src/party.cpp calls it.
use otservbr_global.Common.{
  ℕ, ◌≡◌, refl, ◌∙◌, ◌⊎◌, inl, inr, true, false, ◌||◌, List, [], ◌∷◌, arith, ◌==◌, if◌then◌else◌,
  ==_iff, Bool-cases,
}
use otservbr_global.Party.{Player, World, has, on_player, on_players}
use otservbr_global.Party.Sets.{write_at_lem, write_at-field}

pub on_players-parties :
    (ms : List ℕ) (f : Player → Player) (w : World)
    → ((on_players ms f w).parties ≡ w.parties) × ((on_players ms f w).next_party ≡ w.next_party)
unfolding on_players on_player
on_players-parties [] f w = (refl, refl)
on_players-parties (m ∷ ms) f w = on_players-parties ms f (on_player m f w)

-- What the method leaves alone stays for every player.
pub on_players-kept {κ} :
    {B : Type κ} (g : Player → B) (ms : List ℕ) (f : Player → Player) (w : World) (p : ℕ)
    → ((x : Player) → g (f x) ≡ g x)
    → g ((on_players ms f w).players p) ≡ g (w.players p)
unfolding on_players on_player
on_players-kept g [] f w p h = refl
on_players-kept g (m ∷ ms) f w p h =
    on_players-kept g ms f (on_player m f w) p h
    ∙ (write_at-field g m (f (w.players m)) w.players p ∙ elim (Bool-cases (p == m)) [
      | inl e ↦ rw (e, (==_iff p m).0 e) (h (w.players m))
      | inr e ↦ rw e refl
    ])

-- What the method sets is set for every player of the list.
pub on_players-set {κ} :
    {B : Type κ} (g : Player → B) (v : B) (ms : List ℕ) (f : Player → Player) (w : World) (p : ℕ)
    → ((x : Player) → g (f x) ≡ v)
    → (has p ms ≡ true) ⊎ (g (w.players p) ≡ v)
    → g ((on_players ms f w).players p) ≡ v
unfolding on_players on_player has
on_players-set g v [] f w p h (inl e) = absurd_of e
  where
    absurd_of : false ≡ true → g (w.players p) ≡ v
    absurd_of e = cc
on_players-set g v [] f w p h (inr e) = e
on_players-set g v (m ∷ ms) f w p h c = on_players-set g v ms f (on_player m f w) p h (next c)
  where
    written :
        g ((on_player m f w).players p) ≡ (if p == m then g (f (w.players m)) else g (w.players p))
    written = write_at-field g m (f (w.players m)) w.players p

    next :
        (((m == p) || has p ms) ≡ true) ⊎ (g (w.players p) ≡ v)
        → (has p ms ≡ true) ⊎ (g ((on_player m f w).players p) ≡ v)
    next c' = elim (Bool-cases (p == m)) [
      | inl e ↦ inr (written ∙ rw e (h (w.players m)))
      | inr e ↦ elim c' [
        | inl listed ↦ inl (ground arith)
        | inr already ↦ inr (written ∙ rw e already)
      ]
    ]

pub on_players-missed :
    (ms : List ℕ) (f : Player → Player) (w : World) (p : ℕ)
    → has p ms ≡ false
    → (on_players ms f w).players p ≡ w.players p
unfolding on_players on_player has
on_players-missed [] f w p h = refl
on_players-missed (m ∷ ms) f w p h =
    let other : (p == m) ≡ false = ground arith in
    on_players-missed ms f (on_player m f w) p (ground arith)
    ∙ (write_at_lem m (f (w.players m)) w.players p ∙ rw other refl)

pub on_player-all {κ} :
    (P : Player → Type κ) (p : ℕ) (f : Player → Player) (w : World)
    → ((x : Player) → P x → P (f x))
    → ((r : ℕ) → P (w.players r))
    → (r : ℕ) → P ((on_player p f w).players r)
unfolding on_player
on_player-all P p f w keep h r =
    rw (write_at_lem p (f (w.players p)) w.players r)
      (elim (Bool-cases (r == p)) [ inl e ↦ rw e (keep (w.players p) (h p)) | inr e ↦ rw e (h r) ])

pub on_players-all {κ} :
    (P : Player → Type κ) (ms : List ℕ) (f : Player → Player) (w : World)
    → ((x : Player) → P x → P (f x))
    → ((r : ℕ) → P (w.players r))
    → (r : ℕ) → P ((on_players ms f w).players r)
unfolding on_players
on_players-all P [] f w keep h r = h r
on_players-all P (m ∷ ms) f w keep h r =
    on_players-all P ms f (on_player m f w) keep (on_player-all P m f w keep h) r
