-- ===== src/Connection/Examples.antt =====
-- Runs of a connection of src/connection.cpp.
use otservbr_global.Common.{◌≡◌, refl, true, false, none, some, List, [], ◌∷◌, arith}
use otservbr_global.Connection.{
  Connection, Settings, is_disconnected, is_empty, close, sends, closes, header, read_size, greet,
  accept, accept_with, handle, parse_header, parse_packet, internal_send, send, reply, replies,
  on_write_operation, char_at,
}
use otservbr_global.Connection.Writing.{IsOrderly}
use otservbr_global.Connection.Histories.{
  Event, header_read, body_read, written_out, called, timed_out, happen, history, accepted,
  history-IsOrderly,
}
use otservbr_global.Connection.Closing.{ClosesAfter, close_lem}
use otservbr_global.Connection.Bytes.{compare_line, feed, Tells}
use otservbr_global.Connection.Greeting.{greeting, greeting-Tells}

-- A server named "OT".
abbrev settings : Settings
settings = record { server_name = 79 ∷ 84 ∷ []; max_packets_per_second = 25 }

-- A login with a packet of five bytes, which the protocol answers with two messages; then a third one,
-- and the first is written.
abbrev login : List Event
login =
    header_read false false 10 79 84
    ∷ header_read false false 10 10 0
    ∷ header_read false false 10 5 0
    ∷ body_read false false none (sends false 1 ∷ sends false 2 ∷ [])
    ∷ called (sends false 3)
    ∷ written_out false false
    ∷ []

abbrev running : Connection
running = history settings login (accepted false (some true) 10)

-- The second message is being written and the third waits; a packet has been handled. The game closes,
-- a fourth message is not taken, and the third is still written before the socket closes. A timeout
-- closes at once.
runs :
    (running.message_queue ≡ 2 ∷ 3 ∷ [])
    × (running.written ≡ 1 ∷ 2 ∷ [])
    × (running.writing ≡ some 2)
    × (running.handled ≡ 1)
    × (running.reading ≡ some (header 2))
    × ((history settings
          (called (closes false)
            ∷ called (sends false 4)
            ∷ written_out false false
            ∷ written_out false false
            ∷ [])
          running).written
        ≡ 1 ∷ 2 ∷ 3 ∷ [])
    × ((history settings (called (closes false) ∷ written_out false false ∷ []) running).socket_open
        ≡ true)
    × ((history settings
          (called (closes false) ∷ written_out false false ∷ written_out false false ∷ [])
          running).socket_open
        ≡ false)
    × ((history settings (timed_out false ∷ []) running).socket_open ≡ false)
    × ((greeting settings 10 79 85 []).0.socket_open ≡ false)
unfolding history happen accept accept_with parse_header greet read_size parse_packet handle reply
    replies send internal_send on_write_operation close char_at greeting feed
runs = (refl, refl, refl, refl, refl, refl, refl, refl, refl, refl)

history-IsOrderly_example : IsOrderly (history settings login (accepted false (some true) 10))
history-IsOrderly_example = history-IsOrderly settings login false (some true) 10

running_waits : (is_disconnected running.state ≡ false) × (is_empty running.message_queue ≡ false)
unfolding history happen accept accept_with parse_header greet read_size parse_packet handle reply
    replies send internal_send on_write_operation close char_at
running_waits = (refl, refl)

close_lem_example : ClosesAfter running.asked running.message_queue (close false running)
close_lem_example = close_lem settings login false (some true) 10 running_waits.0 running_waits.1

greeting-Tells_example :
    Tells
      (compare_line (79 ∷ 84 ∷ 10 ∷ []) (79 ∷ 84 ∷ 10 ∷ 5 ∷ 0 ∷ []))
      (greeting settings 10 79 84 (10 ∷ 5 ∷ 0 ∷ []))
greeting-Tells_example =
    greeting-Tells 10 79 84 79 84 25 [] (10 ∷ 5 ∷ 0 ∷ []) (omega arith, (omega arith, tt))
      (omega arith) (omega arith) (omega arith)
