-- ===== src/Protocol/Examples.antt =====
-- Packets of a small text, and the theorems at it.
use otservbr_global.Common.{◌+◌, ◌*◌, ◌≡◌, refl, true, false, some, [], ◌∷◌, arith}
use otservbr_global.Common.Buffer.{Buffer, write, read, le_bytes}
use otservbr_global.NetworkMessage.{Message, fresh}
use otservbr_global.Xtea.{Key}
use otservbr_global.Protocol.{
  OutputMessage, Protocol, add_header, output, write_message_length, on_send_message, receive,
}
use otservbr_global.Protocol.Frame.{IsReady, IsSecured}
use otservbr_global.Protocol.Delivery.{IsDelivered, receive-on_send_message}

abbrev zeros : Buffer
zeros i = 0

abbrev test_key : Key
test_key i = 3 * i + 1

abbrev server : Protocol
server = record {
  key = test_key;
  block_level = 1;
  sequence_number = 7;
  encryption_enabled = true;
  checksum_enabled = true;
  compact_crypt = true;
  raw_messages = false;
}

-- The other side, of another build and without the compact mode.
abbrev client : Protocol
client = record server { block_level = 5; compact_crypt = false }

abbrev greeting : OutputMessage
greeting = record {
  message = record {
    length = 3;
    position = 11;
    overrun = false;
    buffer = write zeros 8 (72 ∷ 105 ∷ 33 ∷ []);
  };
  output_buffer_start = 8;
}

-- Before the login nothing is encrypted: only the length goes in front.
run_before_login :
    output (on_send_message (record server { encryption_enabled = false }) greeting).0
    ≡ 3 ∷ 0 ∷ 72 ∷ 105 ∷ 33 ∷ []
unfolding on_send_message write_message_length add_header output read write le_bytes
run_before_login = refl

greeting-IsReady : IsReady greeting
unfolding output read write
greeting-IsReady = record {
  start_is = refl;
  position_is = refl;
  room = omega arith;
  bytes = (omega arith, (omega arith, (omega arith, tt)));
}

server-IsSecured : IsSecured server
server-IsSecured = record { packed = refl; secret = refl; headed = refl }

receive-on_send_message_example :
    (m' : Message) × (receive client (output (on_send_message server greeting).0) (fresh zeros)
      ≡ some m')
    × IsDelivered (output greeting) m'
receive-on_send_message_example =
    receive-on_send_message server client greeting (fresh zeros) server-IsSecured greeting-IsReady
      refl refl
