-- ===== src/Protocol.antt =====
-- src/outputmessage.h, the ciphering in src/protocol.cpp and the framing in src/connection.cpp: how
-- a message is packed, sent and received.
-- The socket hands over the bytes of the header and of the body; the connection's own state (the
-- timers, the packet count, the login of the server name) is not here. `outputBufferStart` is a
-- `uint16_t`; its `assert` is a hypothesis of the theorems.
pub mod Frame
pub mod Delivery
mod Examples
use otservbr_global.Common.{
  ℕ, ◌+◌, ◌-◌, ◌%◌, Bool, true, false, not, ◌||◌, Option, none, some, List, ltb, leb, ◌==◌,
  if◌then◌else◌, length, take, drop,
}
use otservbr_global.Common.Words.{u16_mod, u32_mod}
use otservbr_global.Common.Buffer.{Buffer, write, read, le_bytes}
use otservbr_global.NetworkMessage.{
  Message, initial_buffer_position, networkmessage_maxsize, fresh, add_padding_bytes, get,
  set_length, get_length_header, get_body_buffer,
}
use otservbr_global.Xtea.{Key, encrypt, decrypt}
use otservbr_global.Adler.{adler_checksum}

pub record OutputMessage : Type 0 where
  pub message : Message
  pub output_buffer_start : ℕ

-- The members of `Protocol` that the packing reads, and the block size that the build has.
pub record Protocol : Type 0 where
  pub key : Key
  pub block_level : ℕ
  pub sequence_number : ℕ
  pub encryption_enabled : Bool
  pub checksum_enabled : Bool
  pub compact_crypt : Bool
  pub raw_messages : Bool

abbrev pub new_output : Buffer → OutputMessage
new_output buf = record { message = fresh buf; output_buffer_start = initial_buffer_position }

-- `memcpy(buffer + outputBufferStart, &addHeader, sizeof(T))`, with the bytes of the header.
pub add_header : List ℕ → OutputMessage → OutputMessage
add_header bytes o =
    let start = (o.output_buffer_start + u16_mod - length bytes) % u16_mod in
    record {
      message = record (o.message) {
        buffer = write (o.message.buffer) start bytes;
        length = (o.message.length + length bytes) % u16_mod;
      };
      output_buffer_start = start;
    }

-- What `getOutputBuffer` and `getLength` give: the bytes to encrypt, to sum up or to send.
pub output : OutputMessage → List ℕ
output o = read (o.message.buffer) (o.output_buffer_start) (o.message.length)

pub write_message_length : OutputMessage → OutputMessage
write_message_length o = add_header (le_bytes 2 (o.message.length)) o

-- The second component is the sequence number, which is taken by reference.
pub add_crypto_header : ℕ → ℕ → OutputMessage → OutputMessage × ℕ
add_crypto_header add_checksum sequence o =
    if add_checksum == 1
    then (write_message_length (add_header (le_bytes 4 (adler_checksum (output o))) o), sequence)
    else if add_checksum == 2
    then (write_message_length (add_header (le_bytes 4 sequence) o), (sequence + 1) % u32_mod)
    else (write_message_length o, sequence)

pub append : Message → OutputMessage → OutputMessage
append m o = record o {
  message = record (o.message) {
    buffer = write (o.message.buffer) (o.message.position) (read m.buffer 8 m.length);
    length = (o.message.length + m.length) % u16_mod;
    position = (o.message.position + m.length) % u16_mod;
  };
}

pad : OutputMessage → OutputMessage
pad o =
    let padding_bytes = o.message.length % 8 in
    if padding_bytes == 0
    then o
    else record o { message = add_padding_bytes (8 - padding_bytes) (o.message) }

encrypted : Protocol → OutputMessage → OutputMessage
encrypted p o = record o {
  message = record (o.message) {
    buffer =
        write (o.message.buffer) (o.output_buffer_start) (encrypt p.block_level p.key (output o));
  };
}

pub xtea_encrypt : Protocol → OutputMessage → OutputMessage
unfolding pad encrypted
xtea_encrypt p o = encrypted p (pad o)

pub on_send_message : Protocol → OutputMessage → OutputMessage × Protocol
on_send_message p o =
    if p.raw_messages
    then (o, p)
    else if p.encryption_enabled
    then (let checksum = if p.compact_crypt then 2 else if p.checksum_enabled then 1 else 0 in
        let (o', sequence) =
          add_crypto_header checksum p.sequence_number (xtea_encrypt p (write_message_length o)) in
        (o', record p { sequence_number = sequence }))
    else (write_message_length o, p)

-- `((length - 6) & 7) != 0` is computed on `int`; it is 0 only where `length + 2` is a multiple of
-- 8, and then the length is at least 6.
pub xtea_decrypt : Protocol → Message → Bool × Message
xtea_decrypt p m =
    if not ((m.length + 2) % 8 == 0)
    then (false, m)
    else (let plain = decrypt p.block_level p.key (read m.buffer m.position (m.length - 6)) in
        let (inner_length, m') = get 2 (record m { buffer = write m.buffer m.position plain }) in
        if ltb (m'.length) (inner_length + 8)
        then (false, m')
        else (true, set_length inner_length m'))

-- The message that `parsePacket` of the protocol gets, if any.
pub on_recv_message : Protocol → Message → Option Message
on_recv_message p m =
    if p.encryption_enabled
    then (let (ok, m') = xtea_decrypt p m in if ok then some m' else none)
    else some m

-- The end of `parseHeader`, after the two bytes of the header have come: the connection is closed,
-- or the body of so many bytes is asked for.
pub parse_header : Message → Option (ℕ × Message)
parse_header m =
    let size = get_length_header m in
    if (size == 0) || leb (networkmessage_maxsize - 16) size
    then none
    else some (size, get_body_buffer (set_length ((size + 2) % u16_mod) m))

-- `parsePacket` of a connection that has received its first message.
pub parse_packet : Protocol → Message → Option Message
parse_packet p m = let (recv_packet, m') = get 4 m in on_recv_message p m'

-- The body is read, unless the connection was closed.
read_body : Protocol → List ℕ → Option (ℕ × Message) → Option Message
read_body p stream none = none
read_body p stream (some (size, m)) =
    parse_packet p (record m { buffer = write m.buffer 2 (take size stream) })

-- One packet: the stream gives the two bytes of the header, and as many more as it says.
pub receive : Protocol → List ℕ → Message → Option Message
unfolding read_body
receive p stream m =
    read_body p (drop 2 stream)
      (parse_header (record m { buffer = write m.buffer 0 (take 2 stream) }))
