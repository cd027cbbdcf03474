-- ===== src/Ban/Flood.antt =====
-- What `Ban::acceptConnection` of src/ban.cpp answers to an address that floods the server.
use otservbr_global.Common.{
  ℕ, zero, suc, ◌+◌, ◌-◌, ◌*◌, ◌≤◌, ◌<◌, ◌≡◌, refl, ap, ◌∙◌, Bool, true, false, Option, none, some,
  List, [], ◌∷◌, arith, ltb, leb, ◌==◌, length,
}
use otservbr_global.Common.Words.{add32, add64, sub64, u64_mod}
use otservbr_global.Ban.{
  ConnectBlock, IpConnectMap, diff_within, count_attempt, visit, accept_connection, answers,
}

-- The answers hang on the block of the address alone.
unfoldable pub visits : List ℕ → Option ConnectBlock → List Bool
visits [] o = []
visits (t ∷ ts) o = (visit t o).0 ∷ visits ts (some (visit t o).1)

pub answers-visits :
    (ip : ℕ) (ts : List ℕ) (blocks : IpConnectMap) → answers ip ts blocks ≡ visits ts (blocks ip)
unfolding answers visits accept_connection
answers-visits ip [] blocks = refl
answers-visits ip (t ∷ ts) blocks =
    let next = (accept_connection ip t blocks).1 in
    let same : (ip == ip) ≡ true = ground arith in
    let block_is : next ip ≡ some (visit t (blocks ip)).1 = rw same refl in
    ap (λ r. (visit t (blocks ip)).0 ∷ r) (answers-visits ip ts next ∙ ap (visits ts) block_is)

-- Times that follow on `t`, at most 250 ticks from one to the next.
abbrev pub IsDense : ℕ → List ℕ → Type 0
IsDense t [] = Unit {0}
IsDense t (u ∷ us) = (t ≤ u) × (u ≤ t + 250) × IsDense u us

abbrev pub refusals : List ℕ → List Bool
refusals [] = []
refusals (t ∷ ts) = false ∷ refusals ts

-- So many are accepted, the rest refused.
abbrev pub accept_first : ℕ → List ℕ → List Bool
accept_first n [] = []
accept_first zero (t ∷ ts) = false ∷ accept_first zero ts
accept_first (suc n) (t ∷ ts) = true ∷ accept_first n ts

visits-blocked :
    (t : ℕ) (ts : List ℕ) (b : ConnectBlock)
    → IsDense t ts
    → t + 250 < b.block_time
    → b.block_time + 250 * length ts < u64_mod
    → visits ts (some b) ≡ accept_first 0 ts
unfolding visits visit
visits-blocked t [] b dense blocked small = refl
visits-blocked t (u ∷ us) b dense blocked small =
    let early : ltb u b.block_time ≡ true = ground (arith, dense.1) in
    let later : add64 b.block_time 250 ≡ b.block_time + 250 = omega arith in
    rw (early, later)
      (ap (λ r. false ∷ r)
        (visits-blocked u us (record b { block_time = b.block_time + 250 }) dense.2
          (omega (arith, dense.1)) (omega arith)))

abbrev counted : ℕ → ℕ → ConnectBlock
counted t c = record { last_attempt = t; block_time = 0; count = c }

visit-counted :
    (t u c : ℕ)
    → t ≤ u
    → u ≤ t + 250
    → u < u64_mod
    → c < 5
    → visit u (some (counted t c)) ≡ (true, counted u (c + 1))
unfolding visit count_attempt diff_within
visit-counted t u c late soon small few =
    let diff_is : sub64 u t ≡ u - t = omega arith in
    let close : leb (u - t) 5000 ≡ true = ground arith in
    let next : add32 c 1 ≡ c + 1 = omega arith in
    let room : ltb 5 (c + 1) ≡ false = ground arith in
    let free : ltb u 0 ≡ false = ground arith in rw (free, diff_is, close, next, room) refl

visit-full :
    (t u : ℕ)
    → t ≤ u
    → u ≤ t + 250
    → u + 3000 < u64_mod
    → visit u (some (counted t 5))
      ≡ (false, record { last_attempt = u; block_time = u + 3000; count = 0 })
unfolding visit count_attempt diff_within
visit-full t u late soon small =
    let diff_is : sub64 u t ≡ u - t = omega arith in
    let close : leb (u - t) 5000 ≡ true = ground arith in
    let closer : leb (u - t) 500 ≡ true = ground arith in
    let until : add64 u 3000 ≡ u + 3000 = omega arith in
    let free : ltb u 0 ≡ false = ground arith in rw (free, diff_is, close, closer, until) refl

visits-counted :
    (n t c : ℕ) (ts : List ℕ)
    → IsDense t ts
    → c + n ≡ 5
    → t + 500 * length ts + 4000 < u64_mod
    → visits ts (some (counted t c)) ≡ accept_first n ts
unfolding visits
visits-counted n t c [] dense five small = refl
visits-counted zero t c (u ∷ us) dense five small =
    let all_five : c ≡ 5 = omega arith in
    rw (all_five, visit-full t u dense.0 dense.1 (omega (arith, dense.1)))
      (ap (λ r. false ∷ r) (visits-blocked u us _ dense.2 (omega arith) (omega (arith, dense.1))))
visits-counted (suc n) t c (u ∷ us) dense five small =
    rw (visit-counted t u c dense.0 dense.1 (omega (arith, dense.1)) (omega arith)) (
      ap (λ r. true ∷ r)
        (visits-counted n u (c + 1) us dense.2 (omega arith) (omega (arith, dense.1))))

-- An address that is new and then tries again at least every 250 ticks of the clock (milliseconds) is
-- accepted five times and never again, however long it goes on.
pub answers_flood :
    (ip t : ℕ) (ts : List ℕ) (blocks : IpConnectMap)
    → blocks ip ≡ none
    → IsDense t ts
    → t + 500 * length ts + 4000 < u64_mod
    → answers ip (t ∷ ts) blocks ≡ accept_first 5 (t ∷ ts)
answers_flood ip t ts blocks new dense small =
    answers-visits ip (t ∷ ts) blocks
    ∙ (ap (visits (t ∷ ts)) new
        ∙ (unfold visits visit in
            ap (λ r. true ∷ r) (visits-counted 4 t 1 ts dense (omega arith) small)))
