-- ===== src/NetworkMessage/Room.antt =====
-- Padding behind the position where there is room for it, and a number that is within the message.
use otservbr_global.Common.{
  ℕ, zero, suc, ◌+◌, ◌%◌, ◌^◌, ◌≤◌, ◌<◌, ◌≡◌, refl, ap, true, arith, ltb, length, All,
}
use otservbr_global.Common.Buffer.{write, read, le_value}
use otservbr_global.Common.Words.{u16_mod}
use otservbr_global.NetworkMessage.{
  Message, max_body_length, add_padding_bytes, can_add, replicate, networkmessage_maxsize, get,
  can_read, advance,
}

pub length-replicate : (n b : ℕ) → length (replicate n b) ≡ n
unfolding replicate
length-replicate zero b = refl
length-replicate (suc n) b = ap suc (length-replicate n b)

pub All-replicate : (n b : ℕ) → b < 256 → All (λ c. c < 256) (replicate n b)
unfolding replicate
All-replicate zero b h = tt
All-replicate (suc n) b h = (h, All-replicate n b h)

pub add_padding_bytes_lem :
    (n : ℕ) (m : Message)
    → m.position + n < max_body_length
    → m.length + n < 2 ^ 16
    → add_padding_bytes n m
      ≡ record m { buffer = write m.buffer m.position (replicate n 0x33); length = m.length + n }
unfolding add_padding_bytes can_add
add_padding_bytes_lem n m room counted =
    let fits : ltb ((n + m.position) % 2 ^ 64) max_body_length ≡ true = ground arith in
    let total : (m.length + n) % 2 ^ 16 ≡ m.length + n = omega arith in rw (fits, total) refl

-- A number within the message is taken from its bytes.
pub get_lem :
    (n : ℕ) (m : Message)
    → m.position + n ≤ m.length + 8
    → m.position + n < networkmessage_maxsize
    → m.position + n < u16_mod
    → get n m ≡ (le_value (read m.buffer m.position n), record m { position = m.position + n })
unfolding get can_read advance
get_lem n m inside small counted =
    let ok : can_read m n ≡ true = ground arith in
    let at : (m.position + n) % u16_mod ≡ m.position + n = omega arith in rw (ok, at) refl
