-- ===== src/Ban.antt =====
-- `Ban::acceptConnection` of src/ban.cpp: how often one address may connect.
-- The map from addresses to blocks is a function; the lock makes each call one step. The clock is an
-- argument. `timeDiff` is an `int64_t`, kept by its bit pattern.
pub mod Flood
pub mod Patience
mod Examples
use otservbr_global.Common.{
  ℕ, ◌^◌, Bool, true, false, ◌||◌, Option, none, some, List, [], ◌∷◌, ltb, leb, ◌==◌, if◌then◌else◌,
}
use otservbr_global.Common.Words.{add32, add64, sub64}

pub record ConnectBlock : Type 0 where
  pub last_attempt : ℕ
  pub block_time : ℕ
  pub count : ℕ

abbrev pub IpConnectMap : Type 0
IpConnectMap = ℕ → Option ConnectBlock

-- `timeDiff <= bound`; a negative difference is below every bound.
pub diff_within : ℕ → ℕ → Bool
diff_within diff bound = leb diff bound || leb (2 ^ 63) diff

-- The part behind the test of the block time.
pub count_attempt : ℕ → ConnectBlock → Bool × ConnectBlock
count_attempt now b =
    let diff = sub64 now b.last_attempt in
    let count = add32 b.count 1 in
    if diff_within diff 5000
    then if ltb 5 count
      then if diff_within diff 500
        then (false, record { last_attempt = now; block_time = add64 now 3000; count = 0 })
        else (true, record b { last_attempt = now; count = 0 })
      else (true, record b { last_attempt = now; count = count })
    else (true, record b { last_attempt = now; count = 1 })

pub visit : ℕ → Option ConnectBlock → Bool × ConnectBlock
visit now none = (true, record { last_attempt = now; block_time = 0; count = 1 })
visit now (some b) =
    if ltb now b.block_time
    then (false, record b { block_time = add64 b.block_time 250 })
    else count_attempt now b

pub accept_connection : ℕ → ℕ → IpConnectMap → Bool × IpConnectMap
accept_connection client_ip now blocks =
    let (accepted, block) = visit now (blocks client_ip) in
    (accepted, λ ip. if ip == client_ip then some block else blocks ip)

-- The answers to the attempts of one address at the given times.
pub answers : ℕ → List ℕ → IpConnectMap → List Bool
answers ip [] blocks = []
answers ip (t ∷ ts) blocks =
    (accept_connection ip t blocks).0 ∷ answers ip ts (accept_connection ip t blocks).1
