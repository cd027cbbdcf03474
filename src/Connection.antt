-- ===== src/Connection.antt =====
-- Connections of clients: src/connection.cpp.
-- A read or a write in flight is a member of the state, and the handler of asio that ends it is an event
-- that carries what came. `throws` is whether asio throws where the code catches it. The messages are told
-- apart by their addresses. Timers are the events that they cause; the set of the `ConnectionManager`,
-- `getIP` and the contents of the packets, which src/protocol.cpp reads, are not here.
pub mod Writing
pub mod Histories
pub mod Closing
pub mod Bytes
pub mod Greeting
mod Examples
use otservbr_global.Common.{
  ℕ, ◌+◌, ◌-◌, ◌*◌, ◌/◌, ◌%◌, Bool, true, false, not, ◌&&◌, ◌||◌, Option, none, some, List, [], ◌∷◌,
  ◌++◌, ltb, leb, ◌==◌, if◌then◌else◌, max,
}
use otservbr_global.Common.Words.{u32_mod, add32, sub64}
use otservbr_global.NetworkMessage.{networkmessage_maxsize}

pub data ConnectionState : Type 0 where
  disconnected connecting_stage1 connecting_stage2 game pending : ConnectionState

-- A read of so many bytes of a header, or of a body.
pub data Reading : Type 0 where
  header : ℕ → Reading
  body : ℕ → Reading

-- `first_byte` and `second_byte` are those of the buffer of `msg`; `protocol` says whether the protocol
-- is that of the game. `asked`, `written` and `handled` are logs: the messages that `send` has queued,
-- those that were prepared for the socket, and the number that came to the protocol.
pub record Connection : Type 0 where
  pub state : ConnectionState
  pub received_first : Bool
  pub received_name : Bool
  pub received_last_char : Bool
  pub server_name_time : ℕ
  pub packets_sent : ℕ
  pub time_connected : ℕ
  pub protocol : Option Bool
  pub first_byte : ℕ
  pub second_byte : ℕ
  pub message_queue : List ℕ
  pub reading : Option Reading
  pub writing : Option ℕ
  pub socket_open : Bool
  pub asked : List ℕ
  pub written : List ℕ
  pub handled : ℕ

pub record Settings : Type 0 where
  pub server_name : List ℕ
  pub max_packets_per_second : ℕ

abbrev pub is_disconnected : ConnectionState → Bool
is_disconnected disconnected = true
is_disconnected connecting_stage1 = false
is_disconnected connecting_stage2 = false
is_disconnected game = false
is_disconnected pending = false

abbrev pub is_stage2 : ConnectionState → Bool
is_stage2 disconnected = false
is_stage2 connecting_stage1 = false
is_stage2 connecting_stage2 = true
is_stage2 game = false
is_stage2 pending = false

abbrev pub is_empty : List ℕ → Bool
is_empty [] = true
is_empty (m ∷ ms) = false

abbrev pub is_game : Option Bool → Bool
is_game none = false
is_game (some b) = b

abbrev pub new_connection : ℕ → Connection
new_connection now = record {
  state = pending;
  received_first = false;
  received_name = false;
  received_last_char = false;
  server_name_time = 0;
  packets_sent = 0;
  time_connected = now;
  protocol = none;
  first_byte = 0;
  second_byte = 0;
  message_queue = [];
  reading = none;
  writing = none;
  socket_open = true;
  asked = [];
  written = [];
  handled = 0;
}

abbrev pub close_socket : Connection → Connection
close_socket c = record c { socket_open = false }

unfoldable pub close : Bool → Connection → Connection
close force c =
    let c' = record c { state = disconnected } in
    if is_empty c.message_queue || force then close_socket c' else c'

abbrev pub async_read : Bool → Reading → Connection → Connection
async_read throws r c = if throws then close true c else record c { reading = some r }

abbrev pub promoted : ConnectionState → ConnectionState
promoted disconnected = disconnected
promoted connecting_stage1 = connecting_stage1
promoted connecting_stage2 = connecting_stage2
promoted game = game
promoted pending = connecting_stage1

-- While the name of the server comes in, a header is one byte.
unfoldable pub accept : Bool → Connection → Connection
accept throws c =
    async_read throws
      (header (
        if not c.received_last_char && (c.received_name && is_stage2 (promoted c.state))
        then 1
        else 2))
      (record c { state = promoted c.state })

unfoldable pub accept_with : Bool → Bool → Connection → Connection
accept_with throws of_game c =
    accept throws (record c { protocol = some of_game; state = connecting_stage2 })

-- An index into a `std::string`, with the 0 behind its end.
unfoldable pub char_at : List ℕ → ℕ → ℕ
char_at [] i = 0
char_at (b ∷ bs) i = let rest = char_at bs (i - 1) in if i == 0 then b else rest

-- The end of `parseHeader`: the size of the packet.
unfoldable pub read_size : Bool → ℕ → ℕ → Connection → Connection
read_size throws now time_passed c =
    let c' = if c.received_last_char && is_stage2 c.state then record c { state = game } else c in
    let c'' =
      if ltb 2 time_passed then record c' { time_connected = now; packets_sent = 0 } else c' in
    let size = c.first_byte + 256 * c.second_byte in
    if (size == 0) || leb (networkmessage_maxsize - 16) size
    then close true c''
    else async_read throws (body size) c''

-- The login of the server name; `go_on` is the end of `parseHeader`.
unfoldable pub greet : List ℕ → Bool → (Connection → Connection) → Connection → Connection
greet name throws go_on c =
    let line = name ++ (10 ∷ []) in
    let time = add32 c.server_name_time 1 in
    let c' = record c { server_name_time = time } in
    if not c.received_name && (c.second_byte == 0)
    then go_on (record c { received_last_char = true })
    else if not c.received_name
    then (if (c.first_byte == char_at line 0) && (c.second_byte == char_at line 1)
        then accept throws (record c { received_name = true; server_name_time = 1 })
        else close true c)
    else if c.first_byte == char_at line time
    then accept throws (if c.first_byte == 10 then record c' { received_last_char = true } else c')
    else close true c'

unfoldable pub parse_header : Settings → Bool → Bool → ℕ → Connection → Connection
parse_header s throws error now c =
    let time_passed = max 1 ((sub64 now c.time_connected + 1) % u32_mod) in
    let c' = record c { packets_sent = add32 c.packets_sent 1 } in
    if error
    then close true c
    else if is_disconnected c.state
    then c
    else if ltb s.max_packets_per_second (c'.packets_sent / time_passed) && is_game c.protocol
    then close false c'
    else if not c.received_last_char && is_stage2 c.state
    then greet s.server_name throws (read_size throws now time_passed) c'
    else read_size throws now time_passed c'

unfoldable pub internal_send : Bool → ℕ → Connection → Connection
internal_send throws m c =
    let c' = record c { written = c.written ++ (m ∷ []) } in
    if throws then close true c' else record c' { writing = some m }

unfoldable pub send : Bool → ℕ → Connection → Connection
send throws m c =
    let c' = record c {
      message_queue = c.message_queue ++ (m ∷ []);
      asked = c.asked ++ (m ∷ []);
    } in
    if is_disconnected c.state
    then c
    else if is_empty c.message_queue
    then internal_send throws m c'
    else c'

-- What a protocol does with the connection while it handles a message.
pub data Reply : Type 0 where
  sends : Bool → ℕ → Reply
  closes : Bool → Reply

unfoldable pub reply : Reply → Connection → Connection
reply (sends throws m) c = send throws m c
reply (closes force) c = close force c

unfoldable pub replies : List Reply → Connection → Connection
replies [] c = c
replies (r ∷ rs) c = replies rs (reply r c)

-- The protocol gets the message, answers, and the next header is read.
unfoldable pub handle : Bool → List Reply → Connection → Connection
handle throws rs c =
    async_read throws (header 2) (replies rs (record c { handled = c.handled + 1 }))

-- `made` is the protocol that the service port makes for a first message.
unfoldable pub parse_packet : Bool → Bool → Option Bool → List Reply → Connection → Connection
parse_packet throws error made rs c =
    let first = record c { received_first = true } in
    if error
    then close true c
    else if is_disconnected c.state
    then c
    else if c.received_first
    then handle throws rs c
    else elim (c.protocol) [
      | some p ↦ handle throws rs first
      | none ↦ elim made [
        | none ↦ close true first
        | some p ↦ handle throws rs (record first { protocol = some p })
      ]
    ]

abbrev pub pop_front : List ℕ → List ℕ
pop_front [] = []
pop_front (m ∷ ms) = ms

abbrev pub write_next : Bool → List ℕ → Connection → Connection
write_next throws [] c = if is_disconnected c.state then close_socket c else c
write_next throws (m ∷ ms) c = internal_send throws m c

unfoldable pub on_write_operation : Bool → Bool → Connection → Connection
on_write_operation throws error c =
    let rest = pop_front c.message_queue in
    if error
    then close true (record c { writing = none; message_queue = [] })
    else write_next throws rest (record c { writing = none; message_queue = rest })

abbrev pub handle_timeout : Bool → Connection → Connection
handle_timeout aborted c = if aborted then c else close true c
