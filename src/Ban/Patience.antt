-- ===== src/Ban/Patience.antt =====
-- What `Ban::acceptConnection` of src/ban.cpp answers to an address that waits between its attempts,
-- and what it leaves alone.
use otservbr_global.Common.{
  ℕ, ◌+◌, ◌-◌, ◌^◌, ◌≤◌, ◌<◌, ◌≡◌, refl, ap, ◌∙◌, ◌≢◌, inl, inr, Bool, true, false, Option, none,
  some, List, [], ◌∷◌, arith, ltb, leb, ◌==◌, Bool-cases,
}
use otservbr_global.Common.Words.{sub64}
use otservbr_global.Ban.{
  ConnectBlock, IpConnectMap, diff_within, count_attempt, visit, accept_connection, answers,
}
use otservbr_global.Ban.Flood.{visits, answers-visits}

-- Times that follow on `t`, more than 5000 ticks from one to the next.
abbrev pub IsSparse : ℕ → List ℕ → Type 0
IsSparse t [] = Unit {0}
IsSparse t (u ∷ us) = (t + 5000 < u) × (u < 2 ^ 63) × IsSparse u us

abbrev pub acceptances : List ℕ → List Bool
acceptances [] = []
acceptances (t ∷ ts) = true ∷ acceptances ts

visit-patient :
    (u : ℕ) (b : ConnectBlock)
    → b.block_time ≤ u
    → b.last_attempt + 5000 < u
    → u < 2 ^ 63
    → visit u (some b) ≡ (true, record b { last_attempt = u; count = 1 })
unfolding visit count_attempt diff_within
visit-patient u b open' late small =
    let free : ltb u b.block_time ≡ false = ground arith in
    let diff_is : sub64 u b.last_attempt ≡ u - b.last_attempt = omega arith in
    let far : leb (u - b.last_attempt) 5000 ≡ false = ground arith in
    let positive : leb (2 ^ 63) (u - b.last_attempt) ≡ false = ground arith in
    rw (free, diff_is, far, positive) refl

visits-sparse :
    (ts : List ℕ) (b : ConnectBlock)
    → IsSparse b.last_attempt ts
    → b.block_time ≤ b.last_attempt + 5000
    → visits ts (some b) ≡ acceptances ts
unfolding visits
visits-sparse [] b sparse free = refl
visits-sparse (u ∷ us) b sparse free =
    rw (visit-patient u b (omega (arith, sparse.0)) sparse.0 sparse.1) (
      ap (λ r. true ∷ r)
        (visits-sparse us (record b { last_attempt = u; count = 1 }) sparse.2
          (omega (arith, sparse.0))))

-- An address that is not blocked and waits more than 5000 ticks between its attempts is accepted
-- every time, however often it has tried before.
pub answers_sparse :
    (ip : ℕ) (ts : List ℕ) (blocks : IpConnectMap) (b : ConnectBlock)
    → blocks ip ≡ some b
    → IsSparse b.last_attempt ts
    → b.block_time ≤ b.last_attempt + 5000
    → answers ip ts blocks ≡ acceptances ts
answers_sparse ip ts blocks b is sparse free =
    answers-visits ip ts blocks ∙ (ap (visits ts) is ∙ visits-sparse ts b sparse free)

-- The count of a block stays within five.
abbrev pub IsFew : Option ConnectBlock → Type 0
IsFew none = Unit {0}
IsFew (some b) = b.count ≤ 5

visit-IsFew : (now : ℕ) (o : Option ConnectBlock) → IsFew o → IsFew (some (visit now o).1)
unfolding visit count_attempt
visit-IsFew now none h = omega arith
visit-IsFew now (some b) h = ground (arith, h)

-- An attempt changes the block of its own address alone, and every block counts at most five
-- attempts.
pub accept_connection-IsFew :
    (client_ip now : ℕ) (blocks : IpConnectMap)
    → ((ip : ℕ) → IsFew (blocks ip))
    → ((ip : ℕ) → IsFew ((accept_connection client_ip now blocks).1 ip))
      × ((ip : ℕ) → ip ≢ client_ip → (accept_connection client_ip now blocks).1 ip ≡ blocks ip)
unfolding accept_connection
accept_connection-IsFew client_ip now blocks h = (few, λ ip ne. ground arith)
  where
    few : (ip : ℕ) → IsFew ((accept_connection client_ip now blocks).1 ip)
    few ip = elim (Bool-cases (ip == client_ip)) [
      | inl e ↦ rw e (visit-IsFew now (blocks client_ip) (h client_ip))
      | inr e ↦ rw e (h ip)
    ]
