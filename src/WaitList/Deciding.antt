-- ===== src/WaitList/Deciding.antt =====
-- What `clientLogin` of src/waitlist.cpp does with the entry of a client.
use otservbr_global.Common.{
  ℕ, zero, suc, ◌+◌, ◌≤◌, ◌<◌, ◌≡◌, ◌==◌, refl, ap, inl, inr, true, false, Option, none, some, List,
  [], ◌∷◌, ◌++◌, arith, leb, Bool-cases, if_elim, length,
}
use otservbr_global.Common.Words.{add64}
use otservbr_global.WaitList.{
  Wait, WaitListInfo, Client, Server, Outcome, done, undefined_erase, enqueue, erase_at,
  set_timeout_at, retry, deadline,
}
use otservbr_global.WaitList.Slots.{queue, position, position-append, locate}

-- The first entry of a player in a list, between the others.
pub record Stands (guid : ℕ) (ws : List Wait) : Type 0 where
  pub before : List Wait
  pub entry : Wait
  pub behind : List Wait
  pub parts : ws ≡ before ++ (entry ∷ behind)
  pub is_player : entry.player_guid ≡ guid
  pub first : position guid before ≡ none

abbrev pub without : {guid : ℕ} {ws : List Wait} → Stands guid ws → List Wait
without h = h.before ++ h.behind

abbrev pub with_timeout : {guid : ℕ} {ws : List Wait} → ℕ → Stands guid ws → List Wait
with_timeout t h = h.before ++ (record (h.entry) { timeout = t } ∷ h.behind)

-- An entry at a new end.
abbrev pub with_entry : ℕ → ℕ → List Wait → List Wait
with_entry t guid ws = ws ++ (record { timeout = t; player_guid = guid } ∷ [])

-- Counted in the 64 bits of `size_t`.
abbrev pub HasRoom : Server → ℕ → Type 0
HasRoom s slot = add64 s.players_online slot ≤ s.max_players

abbrev pub IsFull : Server → ℕ → Type 0
IsFull s slot = s.max_players < add64 s.players_online slot

-- What is answered, and what becomes of the lists. The slot of a client in the ordinary list counts the
-- priority list too.
pub data Decides (info : WaitListInfo) (c : Client) (s : Server) : Outcome → Type 0 where
  admitted :
      (h : Stands c.guid info.wait_list)
      → position c.guid info.priority_wait_list ≡ none
      → HasRoom s (length info.priority_wait_list + length h.before + 1)
      → Decides info c s (done true (record info { wait_list = without h }))
  kept_in_priority :
      (h : Stands c.guid info.priority_wait_list)
      → IsFull s (length h.before + 1)
      → Decides info c s (
          done false (record info {
            priority_wait_list = with_timeout (deadline s (length h.before + 1)) h;
          }))
  kept_waiting :
      (h : Stands c.guid info.wait_list)
      → position c.guid info.priority_wait_list ≡ none
      → IsFull s (length info.priority_wait_list + length h.before + 1)
      → Decides info c s (
          done false (record info {
            wait_list =
                with_timeout (deadline s (length info.priority_wait_list + length h.before + 1)) h;
          }))
  joined_priority :
      position c.guid (queue info) ≡ none
      → c.is_premium ≡ true
      → Decides info c s (
          done false (record info {
            priority_wait_list =
                with_entry
                  (deadline s (length info.priority_wait_list + 1))
                  c.guid
                  info.priority_wait_list;
          }))
  joined_waiting :
      position c.guid (queue info) ≡ none
      → c.is_premium ≡ false
      → Decides info c s (
          done false (record info {
            wait_list =
                with_entry
                  (deadline s (length info.priority_wait_list + length info.wait_list + 1))
                  c.guid
                  info.wait_list;
          }))
  broken :
      (h : Stands c.guid info.priority_wait_list)
      → HasRoom s (length h.before + 1)
      → Decides info c s undefined_erase

-- An entry at an index stands between those before and behind it.
position-Stands :
    (g i : ℕ) (ws : List Wait)
    → position g ws ≡ some i
    → (h : Stands g ws) × (length h.before ≡ i)
      × (erase_at i ws ≡ without h)
      × ((t : ℕ) → set_timeout_at i t ws ≡ with_timeout t h)
unfolding position erase_at set_timeout_at
position-Stands g i [] e = absurd (cc e)
position-Stands g zero (w ∷ ws) e = elim (Bool-cases (w.player_guid == g)) [
  | inl is_g ↦
      let h : Stands g (w ∷ ws) = record {
        before = [];
        entry = w;
        behind = ws;
        parts = refl;
        is_player = ground (arith, is_g);
        first = refl;
      } in
      (h, refl, refl, λ t. refl)
  | inr other ↦ absurd (ground (arith, e, other))
]
position-Stands g (suc i) (w ∷ ws) e = elim (Bool-cases (w.player_guid == g)) [
  | inl is_g ↦ absurd (ground (arith, e, is_g))
  | inr other ↦
      let (k, at_i, erased, timed) = position-Stands g i ws (ground (arith, e, other)) in
      let h : Stands g (w ∷ ws) = record {
        before = w ∷ k.before;
        entry = k.entry;
        behind = k.behind;
        parts = ap (λ l. w ∷ l) k.parts;
        is_player = k.is_player;
        first = ground (arith, other, k.first);
      } in
      (h, ap suc at_i, ap (λ l. w ∷ l) erased, λ t. ap (λ l. w ∷ l) (timed t))
]

pub retry-Decides :
    (info : WaitListInfo) (c : Client) (s : Server) (p w : Option ℕ)
    → position c.guid info.priority_wait_list ≡ p
    → position c.guid info.wait_list ≡ w
    → Decides info c s (retry info c s (locate info p w))
unfolding retry enqueue
retry-Decides info c s (some i) w hp hw =
    let (h, at_i, erased, timed) = position-Stands c.guid i info.priority_wait_list hp in
    let slot : i + 1 ≡ length h.before + 1 = omega (arith, at_i) in
    elim (Bool-cases (leb (add64 s.players_online (i + 1)) s.max_players)) [
      | inl e ↦ rw e (broken h (ground (arith, e, at_i)))
      | inr e ↦
          rw (e, timed (deadline s (i + 1)), slot) (kept_in_priority h (ground (arith, e, at_i)))
    ]
retry-Decides info c s none (some j) hp hw =
    let (h, at_j, erased, timed) = position-Stands c.guid j info.wait_list hw in
    let ahead = length info.priority_wait_list in
    let slot : ahead + j + 1 ≡ ahead + length h.before + 1 = omega (arith, at_j) in
    elim (Bool-cases (leb (add64 s.players_online (ahead + j + 1)) s.max_players)) [
      | inl e ↦ rw (e, erased) (admitted h hp (ground (arith, e, at_j)))
      | inr e ↦
          rw (e, timed (deadline s (ahead + j + 1)), slot)
            (kept_waiting h hp (ground (arith, e, at_j)))
    ]
retry-Decides info c s none none hp hw =
    let absent : position c.guid (queue info) ≡ none =
      ground (arith, position-append c.guid info.priority_wait_list info.wait_list, hp, hw) in
    if_elim (λ (left : WaitListInfo). Decides info c s (done false left)) c.is_premium
      (λ e. joined_priority absent e) (λ e. joined_waiting absent e)
