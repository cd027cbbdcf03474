-- ===== src/Protocol/Delivery.antt =====
-- What `Connection::parseHeader` and `parsePacket` of src/connection.cpp and `XTEA_decrypt` of
-- src/protocol.cpp make of a packet that `onSendMessage` packed.
use otservbr_global.Common.{
  take-length, ℕ, ◌+◌, ◌-◌, ◌*◌, ◌/◌, ◌%◌, ◌^◌, ◌≤◌, ◌<◌, ◌≡◌, refl, sym, ap, ap₂, ◌∙◌, ◌≢◌, inl,
  inr, Bool, true, false, none, some, List, ◌++◌, arith, ltb, leb, ◌==◌, if◌then◌else◌, ==_iff,
  Bool-cases, length, take, drop, All, length-append, All-append, append_assoc, bit_or,
}
use otservbr_global.Common.Words.{u16_mod}
use otservbr_global.Common.Bits.{bit_or_shifted}
use otservbr_global.Common.Buffer.{
  Buffer, write, read, le_bytes, le_value, read-add, read-write_self, length-read, length-le_bytes,
  le_value-le_bytes,
}
use otservbr_global.NetworkMessage.Room.{get_lem, length-replicate, All-replicate}
use otservbr_global.NetworkMessage.RoundTrip.{append-inj}
use otservbr_global.NetworkMessage.{
  Message, max_body_length, networkmessage_maxsize, get, set_length, get_length_header,
  get_body_buffer,
}
use otservbr_global.Xtea.{decrypt}
use otservbr_global.Xtea.Words.{IsByte}
use otservbr_global.Xtea.Blocks.{decrypt-encrypt}
use otservbr_global.Protocol.{
  OutputMessage, Protocol, output, on_send_message, xtea_decrypt, on_recv_message, parse_header,
  parse_packet, read_body, receive,
}
use otservbr_global.Protocol.Frame.{
  plain, cipher, crypto_header, IsReady, IsSecured, on_send_message-packet, padding, length-output,
  All-le_bytes,
}

-- The message that the parser of the protocol gets for a text.
pub record IsDelivered (text : List ℕ) (m : Message) : Type 0 where
  pub position_is : m.position ≡ 8
  pub length_is : m.length ≡ length text
  pub text_is : read m.buffer m.position m.length ≡ text

-- What is to know of a text that is sent.
record IsText (text : List ℕ) : Type 0 where
  room : length text + 16 ≤ max_body_length
  whole : length (plain text) % 8 ≡ 0
  few : length (plain text) ≤ length text + 9
  enough : length text + 2 ≤ length (plain text)
  bytes : All IsByte (plain text)

-- The message as the connection has it, with a text that is encrypted from offset 6 on.
abbrev arrived : ℕ → Buffer → Bool → Message
arrived size buf overrun = record {
  length = 6 + size;
  position = 6;
  overrun = overrun;
  buffer = buf;
}

-- The start of the buffer that is decrypted.
opened-read :
    (text : List ℕ) (buf : Buffer)
    → let buf' = write buf 6 (plain text) in
      (read buf' 6 2 ≡ le_bytes 2 (length text)) × (read buf' 8 (length text) ≡ text)
opened-read text buf =
    let n = length text in
    let buf' = write buf 6 (plain text) in
    let two = length-le_bytes 2 n in
    let size : length (plain text) ≡ 2 + (n + length (padding (n + 2))) = omega (
      arith,
      two,
      length-append (le_bytes 2 n ++ text) (padding (n + 2)),
      length-append (le_bytes 2 n) text,
    ) in
    let all : read buf' 6 2 ++ (read buf' 8 n ++ read buf' (8 + n) (length (padding (n + 2))))
        ≡ le_bytes 2 n ++ (text ++ padding (n + 2)) =
      sym (
        read-add buf' 6 2 (n + length (padding (n + 2)))
        ∙ ap (λ t. read buf' 6 2 ++ t) (read-add buf' 8 n _))
      ∙ (ap (read buf' 6) (sym size)
          ∙ (read-write_self buf 6 (plain text) ∙ append_assoc (le_bytes 2 n) text _)) in
    let first =
      append-inj (read buf' 6 2) _ (le_bytes 2 n) _ (omega (arith, length-read buf' 6 2, two))
        all in
    (first.0, (append-inj (read buf' 8 n) _ text _ (length-read buf' 8 n) first.1).0)

xtea_decrypt-IsDelivered :
    (p q : Protocol) (text : List ℕ) (buf : Buffer) (overrun : Bool)
    → q.key ≡ p.key
    → IsText text
    → read buf 6 (length (plain text)) ≡ cipher p text
    → let out = xtea_decrypt q (arrived (length (plain text)) buf overrun) in
      (out.0 ≡ true) × IsDelivered text out.1
unfolding xtea_decrypt set_length
xtea_decrypt-IsDelivered p q text buf overrun same ok arrives =
    let n = length text in
    let size = length (plain text) in
    let inverse = decrypt-encrypt p.block_level q.block_level p.key (plain text) ok.bytes in
    let plain_is : decrypt q.block_level q.key (read buf 6 (6 + size - 6)) ≡ plain text =
      ap₂ (decrypt q.block_level) same (ap (read buf 6) (omega arith) ∙ arrives) ∙ inverse.1 in
    let tested : (6 + size + 2) % 8 == 0 ≡ true = ground (arith, ok.whole) in
    let buf' = write buf 6 (plain text) in
    let reads = opened-read text buf in
    let taken =
      get_lem 2 (arrived size buf' overrun) (omega (arith, ok.enough)) (omega arith)
        (omega arith) in
    let number : le_value (read buf' 6 2) ≡ n =
      ap le_value reads.0 ∙ le_value-le_bytes 2 n (omega (arith, ok.room)) in
    let fits : ltb (6 + size) (n + 8) ≡ false = ground (arith, ok.enough) in
    rw (tested, plain_is, taken, number, fits)
      (refl, record { position_is = refl; length_is = refl; text_is = reads.1 })

-- A packet with any four bytes as its crypto header.
abbrev framed : List ℕ → List ℕ → List ℕ
framed four bytes = le_bytes 2 (length bytes + 4) ++ (four ++ bytes)

-- The header of a framed packet announces the rest.
parse_header-framed :
    (four bytes : List ℕ) (m : Message)
    → length four ≡ 4
    → length bytes + 7 ≤ max_body_length
    → parse_header (record m { buffer = write m.buffer 0 (take 2 (framed four bytes)) })
      ≡ some (
        length bytes + 4,
        record m {
          buffer = write m.buffer 0 (take 2 (framed four bytes));
          length = 6 + length bytes;
          position = 2;
        },
      )
unfolding parse_header get_length_header get_body_buffer set_length write le_bytes
parse_header-framed four bytes m four_is small =
    let n = length bytes + 4 in
    let size : bit_or (n % 256) (n / 256 % 256 * 2 ^ 8) ≡ n =
      bit_or_shifted 8 (n % 256) (n / 256 % 256) (omega arith) ∙ omega arith in
    let zero' : (n == 0) ≡ false = ground arith in
    let large : leb (networkmessage_maxsize - 16) n ≡ false = ground arith in
    let total : (n + 2) % u16_mod ≡ 6 + length bytes = omega arith in
    rw (size, zero', large, total) refl

parse_packet-get : (q : Protocol) (m : Message) → parse_packet q m ≡ on_recv_message q (get 4 m).1
unfolding parse_packet
parse_packet-get q m = refl

on_recv_message-opened :
    (q : Protocol) (m : Message)
    → q.encryption_enabled ≡ true
    → (xtea_decrypt q m).0 ≡ true
    → on_recv_message q m ≡ some (xtea_decrypt q m).1
unfolding on_recv_message
on_recv_message-opened q m secret opens =
    let out = xtea_decrypt q m in
    ap (λ enc. if enc then (if out.0 then some out.1 else none) else some m) secret
    ∙ ap (λ ok. if ok then some out.1 else none) opens

-- The protocol gets the text of a packet, whatever its crypto header is.
receive-framed :
    (p q : Protocol) (text four : List ℕ) (m : Message)
    → q.key ≡ p.key
    → q.encryption_enabled ≡ true
    → length four ≡ 4
    → IsText text
    → (m' : Message) × (receive q (framed four (cipher p text)) m ≡ some m') × IsDelivered text m'
unfolding receive
receive-framed p q text four m same secret four_is ok =
    let bytes = cipher p text in
    let size = length (plain text) in
    let cipher_length : length bytes ≡ size =
      (decrypt-encrypt p.block_level q.block_level p.key (plain text) ok.bytes).0 in
    let stream = framed four bytes in
    let headed =
      parse_header-framed four bytes m four_is (omega (arith, cipher_length, ok.room, ok.few)) in
    let body : take (length bytes + 4) (drop 2 stream) ≡ four ++ bytes =
      unfold le_bytes in
      ap (λ t. take t (four ++ bytes)) (omega (arith, four_is, length-append four bytes))
      ∙ take-length (four ++ bytes) in
    let buf = write (write m.buffer 0 (take 2 stream)) 2 (four ++ bytes) in
    let taken =
      get_lem 4
        (record { length = 6 + length bytes; position = 2; overrun = m.overrun; buffer = buf })
        (omega arith) (omega arith) (omega arith) in
    let halves : read buf 2 4 ++ read buf 6 (length bytes) ≡ four ++ bytes =
      sym (read-add buf 2 4 (length bytes))
      ∙ (ap (read buf 2) (omega (arith, four_is, length-append four bytes))
          ∙ read-write_self _ 2 (four ++ bytes)) in
    let arrives : read buf 6 size ≡ bytes =
      ap (read buf 6) (sym cipher_length)
      ∙ (append-inj (read buf 2 4) _ four bytes (omega (arith, four_is, length-read buf 2 4))
          halves).1 in
    let done = xtea_decrypt-IsDelivered p q text buf m.overrun same ok arrives in
    (
      (xtea_decrypt q (arrived size buf m.overrun)).1,
      ap (read_body q (drop 2 stream)) headed
          ∙ (ap
                (λ t. parse_packet q (record {
                  length = 6 + length bytes;
                  position = 2;
                  overrun = m.overrun;
                  buffer = write (write m.buffer 0 (take 2 stream)) 2 t;
                }))
                body
              ∙ (parse_packet-get q _
                  ∙ (ap (λ (r : ℕ × Message). on_recv_message q r.1) taken
                      ∙ (ap (λ k. on_recv_message q (arrived k buf m.overrun)) cipher_length
                          ∙ on_recv_message-opened q (arrived size buf m.overrun) secret done.0)))),
      done.1,
    )

length-padding : (n : ℕ) → (length (padding n) < 8) × ((n + length (padding n)) % 8 ≡ 0)
length-padding n = elim (Bool-cases (n % 8 == 0)) [
  | inl e ↦ rw e (omega arith, omega (arith, (==_iff (n % 8) 0).0 e))
  | inr e ↦
      let nonzero : n % 8 ≢ 0 = ground arith in
      let len = length-replicate (8 - n % 8) 0x33 in
      rw e (omega (arith, len, nonzero), omega (arith, len, nonzero))
]

All-padding : (n : ℕ) → All IsByte (padding n)
All-padding n = elim (Bool-cases (n % 8 == 0)) [
  | inl e ↦ rw e tt
  | inr e ↦ rw e (All-replicate (8 - n % 8) 0x33 (omega arith))
]

IsReady-IsText : (o : OutputMessage) → IsReady o → IsText (output o)
IsReady-IsText o h =
    let n = length (output o) in
    let pads = length-padding (n + 2) in
    let size : length (plain (output o)) ≡ 2 + n + length (padding (n + 2)) = omega (
      arith,
      length-le_bytes 2 n,
      length-append (le_bytes 2 n ++ output o) (padding (n + 2)),
      length-append (le_bytes 2 n) (output o),
    ) in
    record {
      room = omega (arith, length-output o, h.room);
      whole = omega (arith, size, pads.1);
      few = omega (arith, size, pads.0);
      enough = omega (arith, size);
      bytes =
          All-append IsByte (le_bytes 2 n ++ output o) (padding (n + 2))
            (All-append IsByte (le_bytes 2 n) (output o) (All-le_bytes 2 n) h.bytes)
            (All-padding (n + 2));
    }

-- What an encrypting session sends, a session with the same key receives: the header is accepted,
-- the packet is decrypted, and the parser gets exactly the bytes of the message. The two programs may
-- differ in their block sizes, and the sender may sum up or number its packets.
pub receive-on_send_message :
    (p q : Protocol) (o : OutputMessage) (m : Message)
    → IsSecured p
    → IsReady o
    → q.key ≡ p.key
    → q.encryption_enabled ≡ true
    → (m' : Message) × (receive q (output (on_send_message p o).0) m ≡ some m')
      × IsDelivered (output o) m'
receive-on_send_message p q o m s h same secret = rw (on_send_message-packet p o s h).0 (
    receive-framed p q (output o) (crypto_header p (cipher p (output o))) m same secret
      (length-le_bytes 4 _) (IsReady-IsText o h))
