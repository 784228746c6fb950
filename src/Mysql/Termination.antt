-- ===== src/Mysql/Termination.antt =====
-- protos/mysql/mysql.go, the loops of `mysqlMessageParser` and `Parse`: both end.
use packetbeat.Base.{
  ℕ, zero, suc, ◌+◌, ◌-◌, ◌*◌, ◌≤◌, ◌<◌, ◌≡◌, inl, inr, refl, true, Option, none, some, length, ltb,
  leb, arith, Bool-cases,
}
use packetbeat.Base.Text.{Bytes}
use packetbeat.Mysql.Integers.{
  LInteger, LString, past_end, incomplete, malformed, integer, string, read_linteger, read_lstring,
}
use packetbeat.Mysql.{
  ParseState, state_start, state_eat_message, state_eat_fields, state_eat_rows, Cursor, Round, next,
  waits, failed, complete, panicked, start_command, start_response, with_header, round_start,
  eat_insert_id, eat_ok, eat_packet, round_message, field_table, field_db, field_catalog, eat_field,
  eat_row, round_packet, round, parse_loop, mysql_message_parser,
}

-- The offset lies inside the data, and the end of the message not behind it.
pub record IsInside (bytes : Bytes) (c : Cursor) : Type 0 where
  pub offset_inside : c.parse_offset ≤ length bytes
  pub end_inside : c.message.end ≤ c.parse_offset

-- 1 once the start is left.
abbrev gone : ParseState → ℕ
gone state_start = 0
gone _ = 1

-- A measure that grows in each round.
abbrev pub place : Cursor → ℕ
place c = 2 * c.parse_offset + gone c.parse_state

abbrev pub Goes : Bytes → ℕ → Round → Type 0
Goes bytes p (next c) = IsInside bytes c × (p < place c)
Goes bytes p (waits c) = IsInside bytes c
Goes bytes p failed = Unit
Goes bytes p (complete c) = IsInside bytes c × (0 < c.message.end)
Goes bytes p panicked = Unit

module _ (bytes : Bytes) (p : ℕ) where
  eat_insert_id-Goes :
      (rows : ℕ) (c : Cursor) (l : LInteger)
      → IsInside bytes c
      → 0 < c.message.end
      → Goes bytes p (eat_insert_id rows c l)
  unfolding eat_insert_id
  eat_insert_id-Goes rows c past_end i e = tt
  eat_insert_id-Goes rows c incomplete i e = ground arith
  eat_insert_id-Goes rows c malformed i e = ground arith
  eat_insert_id-Goes rows c (integer n off) i e = ground arith

  eat_ok-Goes :
      (c : Cursor) (l : LInteger)
      → IsInside bytes c
      → 0 < c.message.end
      → Goes bytes p (eat_ok bytes c l)
  unfolding eat_ok
  eat_ok-Goes c past_end i e = tt
  eat_ok-Goes c incomplete i e = i
  eat_ok-Goes c malformed i e = i
  eat_ok-Goes c (integer n off) i e = eat_insert_id-Goes n c _ i e

  eat_packet-Goes :
      (c : Cursor) → IsInside bytes c → 0 < c.message.end → Goes bytes p (eat_packet bytes c)
  unfolding eat_packet
  eat_packet-Goes c i e =
      ground (arith, eat_ok-Goes c (read_linteger bytes (c.message.start + 5)) i e)

  field_table-Goes :
      (db : Bytes) (c : Cursor) (l : LString)
      → IsInside bytes c
      → c.parse_offset + c.message.packet_length ≤ length bytes
      → p < place c
      → Goes bytes p (field_table db c l)
  unfolding field_table
  field_table-Goes db c past_end i b q = tt
  field_table-Goes db c incomplete i b q = i
  field_table-Goes db c malformed i b q = i
  field_table-Goes db c (string s off) i b q = ground arith

  field_catalog-Goes :
      (c : Cursor) (l : LString)
      → IsInside bytes c
      → c.parse_offset + c.message.packet_length ≤ length bytes
      → p < place c
      → Goes bytes p (field_catalog bytes c l)
  unfolding field_catalog
  field_catalog-Goes c past_end i b q = tt
  field_catalog-Goes c incomplete i b q = i
  field_catalog-Goes c malformed i b q = i
  field_catalog-Goes c (string s off) i b q = go (read_lstring bytes off)
    where
      go : (l : LString) → Goes bytes p (field_db bytes c l)
      go past_end = unfold field_db in tt
      go incomplete = unfold field_db in i
      go malformed = unfold field_db in i
      go (string db off') = unfold field_db in field_table-Goes db c _ i b q

module _ (bytes : Bytes) (c : Cursor) (i : IsInside bytes c)
    (h : ltb c.parse_offset (length bytes) ≡ true) where
  round_start-Goes : c.parse_state ≡ state_start → Goes bytes (place c) (round_start bytes c)
  unfolding round_start start_command start_response with_header
  round_start-Goes s = ground arith

  round_message-Goes : Goes bytes (place c) (round_message bytes c)
  unfolding round_message
  round_message-Goes =
      let end = c.parse_offset + 4 + c.message.packet_length in
      let c' : Cursor = record c {
        parse_offset = end;
        message = record (c.message) { end = end };
      } in
      elim (Bool-cases (leb (c.message.packet_length + 4) (length bytes - c.parse_offset))) [
        | inl t ↦ rw t (
            eat_packet-Goes bytes (place c) c'
              (record { offset_inside = ground arith; end_inside = ground arith }) (omega arith))
        | inr f ↦ rw f i
      ]

module _ (bytes : Bytes) (p : ℕ) (c : Cursor) (i : IsInside bytes c)
    (b : c.parse_offset + c.message.packet_length ≤ length bytes) (q : p < place c) where
  eat_field-Goes : Goes bytes p (eat_field bytes c)
  unfolding eat_field
  eat_field-Goes =
      ground (arith, field_catalog-Goes bytes p c (read_lstring bytes c.parse_offset) i b q)

  eat_row-Goes : 0 < c.parse_offset → Goes bytes p (eat_row bytes c)
  unfolding eat_row
  eat_row-Goes z = ground arith

-- A packet's state goes on with a whole packet, where `eat` does.
round_packet-Goes :
    (eat : Bytes → Cursor → Round) (bytes : Bytes) (c : Cursor)
    → IsInside bytes c
    → ((c' : Cursor)
        → IsInside bytes c'
        → c'.parse_offset + c'.message.packet_length ≤ length bytes
        → place c < place c'
        → 0 < c'.parse_offset
        → Goes bytes (place c) (eat bytes c'))
    → Goes bytes (place c) (round_packet eat bytes c)
unfolding round_packet with_header
round_packet-Goes eat bytes c i k =
    let m = with_header bytes c.parse_offset c.message in
    elim (Bool-cases (ltb (length bytes - c.parse_offset) 4)) [
      | inl t ↦ rw t i
      | inr f ↦ elim (Bool-cases (leb (m.packet_length + 4) (length bytes - c.parse_offset))) [
        | inl t ↦
            rw (f, t)
              (k (record c { parse_offset = c.parse_offset + 4; message = m })
                (record { offset_inside = ground arith; end_inside = ground arith }) (ground arith)
                (ground arith) (ground arith))
        | inr g ↦ rw (f, g) (record { offset_inside = i.offset_inside; end_inside = i.end_inside })
      ]
    ]

round-Goes :
    (s : ParseState) (bytes : Bytes) (c : Cursor)
    → IsInside bytes c
    → ltb c.parse_offset (length bytes) ≡ true
    → c.parse_state ≡ s
    → Goes bytes (place c) (round s bytes c)
unfolding round
round-Goes state_start bytes c i h e = round_start-Goes bytes c i h e
round-Goes state_eat_message bytes c i h e = round_message-Goes bytes c i h
round-Goes state_eat_fields bytes c i h e =
    round_packet-Goes eat_field bytes c i (λ c' i' b q z. eat_field-Goes bytes (place c) c' i' b q)
round-Goes state_eat_rows bytes c i h e =
    round_packet-Goes eat_row bytes c i (λ c' i' b q z. eat_row-Goes bytes (place c) c' i' b q z)

-- A result of the parser: it has ended, inside the data, and the end of a complete message is set.
abbrev pub Ends : Bytes → Option Round → Type 0
Ends bytes none = ⊥
Ends bytes (some (next c)) = ⊥
Ends bytes (some (waits c)) = IsInside bytes c
Ends bytes (some failed) = Unit
Ends bytes (some (complete c)) = IsInside bytes c × (0 < c.message.end)
Ends bytes (some panicked) = Unit

gone-≤ : (s : ParseState) → gone s ≤ 1
gone-≤ state_start = omega arith
gone-≤ state_eat_message = omega arith
gone-≤ state_eat_fields = omega arith
gone-≤ state_eat_rows = omega arith

parse_loop-Ends :
    (fuel : ℕ) (bytes : Bytes) (c : Cursor)
    → IsInside bytes c
    → 2 * length bytes + 1 < fuel + place c
    → Ends bytes (parse_loop fuel bytes c)
unfolding parse_loop
parse_loop-Ends zero bytes c i f = absurd (omega (arith, gone-≤ c.parse_state))
parse_loop-Ends (suc fuel) bytes c i f = elim (Bool-cases (ltb c.parse_offset (length bytes))) [
  | inr e ↦ rw (e, parse_loop) i
  | inl t ↦
      rw (t, parse_loop)
        (go (round c.parse_state bytes c) (round-Goes c.parse_state bytes c i t refl)
          (λ c' i' q. parse_loop-Ends fuel bytes c' i' (omega arith)))
]
  where
    go :
        (r : Round)
        → Goes bytes (place c) r
        → ((c' : Cursor)
            → IsInside bytes c'
            → place c < place c'
            → Ends bytes (parse_loop fuel bytes c'))
        → Ends bytes (elim r [
          | next c' ↦ parse_loop fuel bytes c'
          | waits c' ↦ some (waits c')
          | failed ↦ some failed
          | complete c' ↦ some (complete c')
          | panicked ↦ some panicked
        ])
    go (next c') g k = k c' g.0 g.1
    go (waits c') g k = g
    go failed g k = tt
    go (complete c') g k = g
    go panicked g k = tt

-- `mysqlMessageParser` ends from every offset inside the data that the end of the message is not
-- behind: it never runs out of rounds, it leaves the offset inside the data and the end not behind
-- it, and the end of a complete message is not 0.
pub mysql_message_parser-Ends :
    (bytes : Bytes) (c : Cursor) → IsInside bytes c → Ends bytes (mysql_message_parser bytes c)
unfolding mysql_message_parser
mysql_message_parser-Ends bytes c i = parse_loop-Ends _ bytes c i (omega arith)
