-- ===== src/NetworkMessage.antt =====
-- src/networkmessage.h and src/networkmessage.cpp: the buffer of a message, its writers and readers.
-- `length` and `position` are `uint16_t`; a template parameter T enters as `sizeof(T)`, and a number
-- is stored in the order of a little-endian host. The C++ sums inside `canRead` are `int`, which
-- cannot overflow for sizes up to 65535.
pub mod Extends
pub mod RoundTrip
pub mod Bounds
pub mod Room
mod Examples
use otservbr_global.Common.{
  ℕ, zero, suc, ◌+◌, ◌-◌, ◌*◌, ◌%◌, ◌^◌, Bool, true, false, not, ◌||◌, List, [], ◌∷◌, ltb, leb,
  ◌==◌, if◌then◌else◌, length, bit_or,
}
use otservbr_global.Common.Words.{u16_mod, u64_mod}
use otservbr_global.Common.Buffer.{Buffer, write, read, le_bytes, le_value}

pub record Message : Type 0 where
  pub length : ℕ
  pub position : ℕ
  pub overrun : Bool
  pub buffer : Buffer

abbrev pub initial_buffer_position : ℕ
initial_buffer_position = 8

abbrev pub networkmessage_maxsize : ℕ
networkmessage_maxsize = 24590

-- NETWORKMESSAGE_MAXSIZE - HEADER_LENGTH - CHECKSUM_LENGTH - XTEA_MULTIPLE
abbrev pub max_body_length : ℕ
max_body_length = networkmessage_maxsize - 2 - 4 - 8

pub record Position : Type 0 where
  pub x : ℕ
  pub y : ℕ
  pub z : ℕ

-- A message that was just made, or `reset`: the bytes are those left in the memory.
abbrev pub fresh : Buffer → Message
fresh buf = record { length = 0; position = initial_buffer_position; overrun = false; buffer = buf }

pub can_add : Message → ℕ → Bool
can_add m size = ltb ((size + m.position) % u64_mod) max_body_length

-- Only the answer; the callers set `overrun` where it is false.
pub can_read : Message → ℕ → Bool
can_read m size =
    not (ltb (m.length + 8) (m.position + size) || leb networkmessage_maxsize (m.position + size))

-- A `memcpy` to the position, and the two counters.
pub put_bytes : Message → List ℕ → Message
put_bytes m bytes = record m {
  buffer = write m.buffer m.position bytes;
  position = (m.position + length bytes) % u16_mod;
  length = (m.length + length bytes) % u16_mod;
}

pub add_byte : ℕ → Message → Message
add_byte value m = if can_add m 1 then put_bytes m (value % 256 ∷ []) else m

pub add : ℕ → ℕ → Message → Message
add size value m = if can_add m size then put_bytes m (le_bytes size value) else m

pub add_bytes : List ℕ → Message → Message
add_bytes bytes m =
    if not (can_add m (length bytes)) || ltb 8192 (length bytes) then m else put_bytes m bytes

pub add_string : List ℕ → Message → Message
add_string text m =
    if not (can_add m (length text + 2)) || ltb 8192 (length text)
    then m
    else put_bytes (add 2 (length text % u16_mod) m) text

pub add_position : Position → Message → Message
add_position p m = add_byte p.z (add 2 p.y (add 2 p.x m))

pub replicate : ℕ → ℕ → List ℕ
replicate zero b = []
replicate (suc n) b = b ∷ replicate n b

-- The padding is written behind the position, which stays.
pub add_padding_bytes : ℕ → Message → Message
add_padding_bytes n m =
    if can_add m n
    then record m {
      buffer = write m.buffer m.position (replicate n 0x33);
      length = (m.length + n) % u16_mod;
    }
    else m

pub advance : ℕ → Message → Message
advance size m = record m { position = (m.position + size) % u16_mod }

pub get_byte : Message → ℕ × Message
get_byte m =
    if can_read m 1 then (m.buffer m.position, advance 1 m) else (0, record m { overrun = true })

-- `buffer[--info.position]`
pub get_previous_byte : Message → ℕ × Message
get_previous_byte m =
    let position = (m.position + u16_mod - 1) % u16_mod in
    (m.buffer position, record m { position = position })

pub get : ℕ → Message → ℕ × Message
get size m =
    if can_read m size
    then (le_value (read m.buffer m.position size), advance size m)
    else (0, record m { overrun = true })

get_text : ℕ → Message → List ℕ × Message
get_text size m =
    if can_read m size
    then (read m.buffer m.position size, advance size m)
    else ([], record m { overrun = true })

pub get_string : ℕ → Message → List ℕ × Message
unfolding get_text
get_string string_len m =
    if string_len == 0
    then (let (size, m') = get 2 m in get_text size m')
    else get_text string_len m

pub get_position : Message → Position × Message
get_position m =
    let (x, m₁) = get 2 m in
    let (y, m₂) = get 2 m₁ in let (z, m₃) = get_byte m₂ in (record { x = x; y = y; z = z }, m₃)

-- The count is an `int16_t`, given by its bit pattern.
pub skip_bytes : ℕ → Message → Message
skip_bytes count m = advance count m

unfoldable pub set_length : ℕ → Message → Message
set_length new_length m = record m { length = new_length }

unfoldable pub get_length_header : Message → ℕ
get_length_header m = bit_or (m.buffer 0) (m.buffer 1 * 2 ^ 8)

pub decode_header : Message → ℕ × Message
decode_header m = let size = get_length_header m in (size, record m { length = size % u16_mod })

-- The address that it returns is that of offset 2.
unfoldable pub get_body_buffer : Message → Message
get_body_buffer m = record m { position = 2 }
