-- ===== src/Mysql/Truncation.antt =====
-- protos/mysql/mysql.go, the case `MysqlStateEatRows` on a response that is longer than what is sent.
use packetbeat.Base.{◌+◌, ◌≤◌, ◌<◌, ◌≡◌, length, length-drop, arith, true}
use packetbeat.Base.Text.{Bytes}
use packetbeat.Mysql.{Cursor, Round, complete, with_header, eat_row, round_packet}
use packetbeat.Mysql.Stream.{prepare_for_new_message}
use packetbeat.Mysql.Termination.{IsInside}

-- Where a complete response was cut, its end is still the one that was set before, and the data of
-- the next message starts with four bytes at least that the parser has already been through.
abbrev pub Cuts : Bytes → Cursor → Round → Type 0
Cuts bytes c (complete c') =
    (c'.message.is_truncated ≡ true)
    × (c'.message.end ≡ c.message.end)
    × (length bytes + 4
        ≤ c'.parse_offset + length (prepare_for_new_message bytes c'.message).payload)
Cuts bytes c _ = Unit

-- In the state that reads rows, with an end that is set: where the round completes the response, the
-- response is truncated, its end stays, and the data that is kept for the next message begins with four bytes
-- at least that the parser has already been through.
pub round_packet_truncated :
    (bytes : Bytes) (c : Cursor)
    → IsInside bytes c
    → 0 < c.message.end
    → Cuts bytes c (round_packet eat_row bytes c)
unfolding round_packet eat_row with_header prepare_for_new_message
round_packet_truncated bytes c i h = ground (arith, length-drop c.message.end bytes)
