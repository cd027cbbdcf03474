-- ===== src/NetworkMessage/Examples.antt =====
-- Runs of src/networkmessage.cpp, and the theorems at concrete messages.
use otservbr_global.Common.{◌≡◌, refl, true, false, List, [], ◌∷◌, map, arith}
use otservbr_global.Common.Buffer.{Buffer, write, read, le_bytes, le_value}
use otservbr_global.NetworkMessage.{
  Position, fresh, can_add, can_read, put_bytes, add_byte, add, add_bytes, add_string, add_position,
  advance, get_byte, get, get_string, get_position,
}
use otservbr_global.NetworkMessage.RoundTrip.{
  Field, byte, number, text, place, kind, add_fields, get_fields, get_fields-add_fields,
}
use otservbr_global.NetworkMessage.Bounds

methods : Unit {0}
unfolding write read le_bytes le_value can_add can_read put_bytes add_byte add add_bytes add_string
    add_position advance get_byte get get_string get_position
methods = tt

abbrev zeros : Buffer
zeros i = 0

abbrev spot : Position
spot = record { x = 1000; y = 999; z = 7 }

abbrev packet : List Field
packet = byte 0x6a ∷ place spot ∷ number 4 123456 ∷ text (b'H' ∷ b'i' ∷ []) ∷ number 8 1 ∷ []

-- The packet has 22 bytes; reading 4 bytes of a message of 2 sets the mark and returns 0.
runs :
    ((add_fields packet (fresh zeros)).length ≡ 22)
    × ((get 4 (record (fresh zeros) { length = 2 })).1.overrun ≡ true)
    × ((get 4 (record (fresh zeros) { length = 2 })).0 ≡ 0)
    × ((get 4 (record (fresh zeros) { length = 4 })).1.overrun ≡ false)
unfolding methods
runs = (refl, refl, refl, refl)

get_fields-add_fields_example :
    get_fields (map kind packet) (record (add_fields packet (fresh zeros)) { position = 8 })
    ≡ packet
unfolding methods
get_fields-add_fields_example = get_fields-add_fields packet zeros (omega arith) (omega arith)

perform-StaysIn_example : Bounds.StaysIn (fresh zeros) (add_string (b'H' ∷ []) (fresh zeros))
perform-StaysIn_example =
    Bounds.perform-StaysIn (Bounds.Write.text (b'H' ∷ [])) (fresh zeros) (omega arith) (omega arith)
