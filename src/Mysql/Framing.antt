-- ===== src/Mysql/Framing.antt =====
-- protos/mysql/mysql.go, `mysqlMessageParser` on the packets of a query.
use packetbeat.Base.{
  ℕ, suc, ◌+◌, ◌-◌, ◌*◌, ◌/◌, ◌%◌, ◌<◌, ◌≡◌, ◌++◌, refl, ap, ◌∷◌, length, length-append, take, ltb,
  leb, arith, true, false, ◌∙◌, some, take-append_length,
}
use packetbeat.Base.Text.{Bytes}
use packetbeat.Mysql.Integers.{slice, read_u24}
use packetbeat.Mysql.{
  state_start, state_eat_message, MysqlMessage, Cursor, Round, next, complete, new_message,
  start_command, with_header, round_start, eat_packet, round_message, round, parse_loop,
  mysql_message_parser,
}

-- A packet of the command phase that asks a query: the length in three bytes, the sequence number 0,
-- and the command.
abbrev pub query_packet : Bytes → Bytes
query_packet q = let n = length q + 1 in n % 256 ∷ n / 256 % 256 ∷ n / 65536 ∷ 0 ∷ 3 ∷ q

-- The message of a query.
abbrev pub query_message : ℕ → Bytes → MysqlMessage
query_message ts q = record (new_message ts) {
  end = 5 + length q;
  is_request = true;
  packet_length = length q + 1;
  typ = 3;
  query = q;
}

abbrev pub at_start : ℕ → Cursor
at_start ts = record {
  parse_offset = 0;
  parse_state = state_start;
  is_client = false;
  message = new_message ts;
}

-- Behind the header.
abbrev in_message : ℕ → Bytes → Cursor
in_message ts q = record {
  parse_offset = 0;
  parse_state = state_eat_message;
  is_client = true;
  message = record (new_message ts) { is_request = true; packet_length = length q + 1; typ = 3 };
}

module _ (ts : ℕ) (q rest : Bytes) (h : length q < 16_777_215) where
  round_start_query : round_start (query_packet q ++ rest) (at_start ts) ≡ next (in_message ts q)
  unfolding round_start with_header start_command read_u24
  round_start_query =
      let n = length q + 1 in
      let e : n % 256 + n / 256 % 256 * 256 + n / 65536 * 65536 ≡ n = omega arith in
      let f : ltb (length (query_packet q ++ rest) - 0) 5 ≡ false = ground arith in rw (f, e) refl

  text_of_query : slice (query_packet q ++ rest) 5 (0 + 4 + (length q + 1)) ≡ q
  text_of_query =
      let e : 0 + 4 + (length q + 1) - 5 ≡ length q = omega arith in
      ap (λ n. take n (q ++ rest)) e ∙ take-append_length q rest

  -- The request with a text, that ends at an offset.
  abbrev asked : Bytes → ℕ → Round
  asked text n = complete (record {
    parse_offset = n;
    parse_state = state_eat_message;
    is_client = true;
    message = record (query_message ts q) { end = n; query = text };
  })

  round_message_query :
      round_message (query_packet q ++ rest) (in_message ts q)
      ≡ complete (record {
        parse_offset = 5 + length q;
        parse_state = state_eat_message;
        is_client = true;
        message = query_message ts q;
      })
  unfolding round_message eat_packet
  round_message_query =
      let e : 0 + 4 + (length q + 1) ≡ 5 + length q = omega arith in
      let f : leb (length q + 1 + 4) (length (query_packet q ++ rest) - 0) ≡ true =
        ground (arith, length-append q rest) in
      let g : ltb (0 + 4 + (length q + 1)) (0 + 5) ≡ false = ground arith in
      rw (f, g)
        (ap (asked (slice (query_packet q ++ rest) 5 (0 + 4 + (length q + 1)))) e
          ∙ ap (λ text. asked text (5 + length q)) text_of_query)

-- From a fresh stream, the packet of a query that is shorter than 2 ^ 24 - 1 bytes is one complete
-- request with that text, whatever follows it: the message ends where the packet does, and so does
-- the offset.
pub mysql_message_parser_query :
    (ts : ℕ) (q rest : Bytes)
    → length q < 16_777_215
    → mysql_message_parser (query_packet q ++ rest) (at_start ts)
      ≡ some (
          complete (record {
            parse_offset = 5 + length q;
            parse_state = state_eat_message;
            is_client = true;
            message = query_message ts q;
          }))
unfolding mysql_message_parser parse_loop round
mysql_message_parser_query ts q rest h =
    let bytes = query_packet q ++ rest in
    let fuel : 2 * length bytes + 2 ≡ suc (suc (2 * length bytes)) = omega arith in
    let more : ltb 0 (length bytes) ≡ true = ground arith in
    rw
      (
        fuel,
        more,
        parse_loop,
        round_start_query ts q rest h,
        more,
        parse_loop,
        round_message_query ts q rest h,
      )
      refl
