-- ===== src/Protocol/Frame.antt =====
-- How src/outputmessage.h and src/protocol.cpp pack a message: what each header puts in front of the
-- bytes, and the packet that is sent.
use otservbr_global.Common.{
  ℕ, zero, suc, ◌+◌, ◌-◌, ◌/◌, ◌%◌, ◌≤◌, ◌<◌, ◌≡◌, refl, sym, ap, ap₂, ◌∙◌, ◌≢◌, inl, inr, Bool,
  true, false, ◌||◌, List, [], ◌++◌, arith, ◌==◌, if◌then◌else◌, ==_iff, Bool-cases, length, All,
  length-append, All-append, append-nil,
}
use otservbr_global.Common.Words.{u16_mod, u32_mod}
use otservbr_global.Common.Buffer.{
  write, read, le_bytes, read-add, read-write_self, read-write_before, read-write_after,
  length-read, length-le_bytes,
}
use otservbr_global.NetworkMessage.{max_body_length, replicate}
use otservbr_global.NetworkMessage.Room.{length-replicate, All-replicate, add_padding_bytes_lem}
use otservbr_global.Xtea.{encrypt}
use otservbr_global.Xtea.Words.{IsByte}
use otservbr_global.Xtea.Blocks.{decrypt-encrypt}
use otservbr_global.Protocol.{
  OutputMessage, Protocol, add_header, output, write_message_length, add_crypto_header, pad,
  encrypted, xtea_encrypt, on_send_message,
}
use otservbr_global.Adler.{adler_checksum}

-- A header goes in front of the output, where there is room for it.
pub add_header-output :
    (bytes : List ℕ) (o : OutputMessage)
    → length bytes ≤ o.output_buffer_start
    → o.output_buffer_start < u16_mod
    → o.message.length + length bytes < u16_mod
    → (output (add_header bytes o) ≡ bytes ++ output o)
      × ((add_header bytes o).output_buffer_start ≡ o.output_buffer_start - length bytes)
      × ((add_header bytes o).message.length ≡ o.message.length + length bytes)
unfolding add_header output
add_header-output bytes o room small counted =
    let start = o.output_buffer_start - length bytes in
    let n = o.message.length in
    let start_is : (o.output_buffer_start + u16_mod - length bytes) % u16_mod ≡ start =
      omega arith in
    let length_is : (n + length bytes) % u16_mod ≡ length bytes + n = omega arith in
    let after : start + length bytes ≡ o.output_buffer_start = omega arith in
    let buf = write (o.message.buffer) start bytes in
    rw (start_is, length_is)
      (
        read-add buf start (length bytes) n
            ∙ ap₂ (λ x y. x ++ y) (read-write_self (o.message.buffer) start bytes)
                (ap (λ i. read buf i n) after
                  ∙ read-write_after (o.message.buffer) start (o.output_buffer_start) n bytes
                      (omega arith)),
        refl,
        omega arith,
      )

-- A message with its inner length in front is padded to whole blocks.
record IsPadded (o o' : OutputMessage) (padding : List ℕ) : Type 0 where
  whole : length (output o ++ padding) % 8 ≡ 0
  few : length padding < 8
  bytes : All IsByte padding
  output_is : output o' ≡ output o ++ padding
  start_is : o'.output_buffer_start ≡ o.output_buffer_start
  length_is : o'.message.length ≡ o.message.length + length padding

abbrev pub padding : ℕ → List ℕ
padding n = if n % 8 == 0 then [] else replicate (8 - n % 8) 0x33

pub length-output : (o : OutputMessage) → length (output o) ≡ o.message.length
unfolding output
length-output o = length-read (o.message.buffer) (o.output_buffer_start) (o.message.length)

pad-IsPadded :
    (o : OutputMessage)
    → o.message.position ≡ o.output_buffer_start + o.message.length
    → o.message.position + 8 ≤ max_body_length
    → IsPadded o (pad o) (padding (o.message.length))
unfolding pad output
pad-IsPadded o at room =
    let n = o.message.length in
    let start = o.output_buffer_start in
    let buf = o.message.buffer in
    let k = 8 - n % 8 in
    let out = length-output o in
    elim (Bool-cases (n % 8 == 0)) [
      | inl e ↦ rw e (record {
        whole = omega (arith, out, (==_iff (n % 8) 0).0 e, length-append (output o) []);
        few = omega arith;
        bytes = tt;
        output_is = sym (append-nil (output o));
        start_is = refl;
        length_is = omega arith;
      })
      | inr e ↦
          let nonzero : n % 8 ≢ 0 = ground arith in
          let len = length-replicate k 0x33 in
          let buf' = write buf (o.message.position) (replicate k 0x33) in
          rw (e, add_padding_bytes_lem k (o.message) (omega arith) (omega arith))
            (record {
              whole = omega (arith, out, len, nonzero, length-append (output o) (replicate k 0x33));
              few = omega (arith, len, nonzero);
              bytes = All-replicate k 0x33 (omega arith);
              output_is =
                  read-add buf' start n k
                  ∙ ap₂ (λ x y. x ++ y)
                      (read-write_before buf (o.message.position) start n (replicate k 0x33)
                        (omega arith))
                      (ap (λ i. read buf' i k) (sym at)
                        ∙ (ap (read buf' (o.message.position)) (sym len)
                            ∙ read-write_self buf (o.message.position) (replicate k 0x33)));
              start_is = refl;
              length_is = omega (arith, len);
            })
    ]

encrypted-output :
    (p : Protocol) (o : OutputMessage)
    → All IsByte (output o)
    → output (encrypted p o) ≡ encrypt p.block_level p.key (output o)
unfolding encrypted output
encrypted-output p o bytes =
    let same = decrypt-encrypt p.block_level p.block_level p.key (output o) bytes in
    let cipher = encrypt p.block_level p.key (output o) in
    let len : length cipher ≡ o.message.length = same.0 ∙ length-output o in
    ap (read (write (o.message.buffer) (o.output_buffer_start) cipher) (o.output_buffer_start))
      (sym len)
    ∙ read-write_self (o.message.buffer) (o.output_buffer_start) cipher

-- The bytes that stand where an encrypted message is packed.
abbrev pub plain : List ℕ → List ℕ
plain text = (le_bytes 2 (length text) ++ text) ++ padding (length text + 2)

abbrev pub cipher : Protocol → List ℕ → List ℕ
cipher p text = encrypt p.block_level p.key (plain text)

-- The four bytes that a message has in front of the encrypted part.
abbrev pub crypto_header : Protocol → List ℕ → List ℕ
crypto_header p bytes =
    le_bytes 4 (if p.compact_crypt then p.sequence_number else adler_checksum bytes)

-- What goes over the wire for a text: the length of the rest, the crypto header, the cipher.
abbrev pub packet : Protocol → List ℕ → List ℕ
packet p text =
    le_bytes 2 (length (cipher p text) + 4) ++ (crypto_header p (cipher p text) ++ cipher p text)

-- A message that only the writers have touched, with room for the padding.
pub record IsReady (o : OutputMessage) : Type 0 where
  pub start_is : o.output_buffer_start ≡ 8
  pub position_is : o.message.position ≡ 8 + o.message.length
  pub room : o.message.length + 16 ≤ max_body_length
  pub bytes : All IsByte (output o)

-- A session after the login, on a connection of the game: the crypto header has four bytes.
pub record IsSecured (p : Protocol) : Type 0 where
  pub packed : p.raw_messages ≡ false
  pub secret : p.encryption_enabled ≡ true
  pub headed : (p.compact_crypt || p.checksum_enabled) ≡ true

pub All-le_bytes : (n v : ℕ) → All IsByte (le_bytes n v)
unfolding le_bytes
All-le_bytes zero v = tt
All-le_bytes (suc n) v = (omega arith, All-le_bytes n (v / 256))

-- Behind the encryption.
record IsCiphered (p : Protocol) (o o' : OutputMessage) : Type 0 where
  output_is : output o' ≡ cipher p (output o)
  start_is : o'.output_buffer_start ≡ 6
  long : o'.message.length ≤ o.message.length + 10

xtea_encrypt-IsCiphered :
    (p : Protocol) (o : OutputMessage)
    → IsReady o
    → IsCiphered p o (xtea_encrypt p (write_message_length o))
unfolding xtea_encrypt write_message_length encrypted
xtea_encrypt-IsCiphered p o h =
    let n = o.message.length in
    let two = length-le_bytes 2 n in
    let first =
      add_header-output (le_bytes 2 n) o (omega (arith, two, h.start_is))
        (omega (arith, h.start_is)) (omega (arith, two, h.room)) in
    let o' = add_header (le_bytes 2 n) o in
    let same_position : o'.message.position ≡ o.message.position = unfold add_header in refl in
    let padded =
      pad-IsPadded o' (omega (arith, same_position, h.position_is, h.start_is, first.1, two))
        (omega (arith, same_position, h.position_is, h.room)) in
    let len : o'.message.length ≡ n + 2 = omega (arith, first.2, two) in
    let text_len = length-output o in
    let plain_is : output (pad o') ≡ plain (output o) =
      padded.output_is
      ∙ ap₂ (λ x y. x ++ y) (first.0 ∙ ap (λ t. le_bytes 2 t ++ output o) (sym text_len))
          (ap padding (len ∙ ap (λ t. t + 2) (sym text_len))) in
    let bytes : All IsByte (output (pad o')) = rw padded.output_is (
      All-append IsByte (output o') (padding (o'.message.length))
        (rw first.0 (All-append IsByte (le_bytes 2 n) (output o) (All-le_bytes 2 n) h.bytes))
        padded.bytes) in
    record {
      output_is = encrypted-output p (pad o') bytes ∙ ap (encrypt p.block_level p.key) plain_is;
      start_is = omega (arith, padded.start_is, first.1, h.start_is, two);
      long = omega (arith, padded.length_is, padded.few, len);
    }

abbrev checksum_mode : Protocol → ℕ
checksum_mode p = if p.compact_crypt then 2 else if p.checksum_enabled then 1 else 0

on_send_message_secured :
    (p : Protocol) (o : OutputMessage)
    → IsSecured p
    → let sent =
        add_crypto_header
          (checksum_mode p)
          p.sequence_number
          (xtea_encrypt p (write_message_length o)) in
      on_send_message p o ≡ (sent.0, record p { sequence_number = sent.1 })
unfolding on_send_message
on_send_message_secured p o s =
    let send : Bool → Bool → OutputMessage × Protocol = λ raw enc.
      if raw
      then (o, p)
      else if enc
      then (let (o', sequence) =
            add_crypto_header (checksum_mode p) p.sequence_number
              (xtea_encrypt p (write_message_length o)) in
          (o', record p { sequence_number = sequence }))
      else (write_message_length o, p) in
    ap₂ send s.packed s.secret

-- The two headers in front of an encrypted text.
headers-output :
    (h : List ℕ) (p : Protocol) (o x : OutputMessage)
    → IsReady o
    → IsCiphered p o x
    → length h ≡ 4
    → output (write_message_length (add_header h x))
      ≡ le_bytes 2 (length (cipher p (output o)) + 4) ++ (h ++ cipher p (output o))
unfolding write_message_length
headers-output h p o x ready c four =
    let n = x.message.length in
    let first =
      add_header-output h x (omega (arith, four, c.start_is)) (omega (arith, c.start_is))
        (omega (arith, four, c.long, ready.room)) in
    let x' = add_header h x in
    let two = length-le_bytes 2 (x'.message.length) in
    let second =
      add_header-output (le_bytes 2 (x'.message.length)) x'
        (omega (arith, two, four, first.1, c.start_is)) (omega (arith, first.1, c.start_is))
        (omega (arith, two, four, first.2, c.long, ready.room)) in
    let len : x'.message.length ≡ length (cipher p (output o)) + 4 =
      omega (arith, first.2, four, length-output x, ap length c.output_is) in
    second.0 ∙ ap₂ (λ t r. le_bytes 2 t ++ r) len (first.0 ∙ ap (λ r. h ++ r) c.output_is)

-- An encrypted message goes out as one packet, and takes a sequence number in the compact mode alone.
pub on_send_message-packet :
    (p : Protocol) (o : OutputMessage)
    → IsSecured p
    → IsReady o
    → (output (on_send_message p o).0 ≡ packet p (output o))
      × ((on_send_message p o).1.sequence_number
          ≡ (if p.compact_crypt then (p.sequence_number + 1) % u32_mod else p.sequence_number))
on_send_message-packet p o s h =
    let x = xtea_encrypt p (write_message_length o) in
    let c = xtea_encrypt-IsCiphered p o h in
    rw (on_send_message_secured p o s) (elim (Bool-cases p.compact_crypt) [
      | inl e ↦
          unfold add_crypto_header in
          simp e (
            headers-output (le_bytes 4 p.sequence_number) p o x h c
                (length-le_bytes 4 p.sequence_number),
            refl,
          )
      | inr e ↦
          let summed : p.checksum_enabled ≡ true = grind (arith, s.headed, e) in
          unfold add_crypto_header in
          simp (e, summed, c.output_is)
            (
              headers-output (le_bytes 4 (adler_checksum (cipher p (output o)))) p o x h c
                  (length-le_bytes 4 _),
              refl,
            )
    ])
