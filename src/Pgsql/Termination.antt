-- ===== src/Pgsql/Termination.antt =====
-- protos/pgsql/pgsql.go, the loop of `pgsqlMessageParser`: where it ends.
use packetbeat.Base.{
  ℕ, zero, suc, ◌+◌, ◌-◌, ◌*◌, ◌≤◌, ◌<◌, ◌≡◌, inl, inr, refl, Bool, true, ◌&&◌, ◌||◌, some, length,
  ltb, leb, arith, Option-cases, Bool-cases, ◌==◌,
}
use packetbeat.Base.Slice.{Buffer}
use packetbeat.Pgsql.Message.{
  Common, ParseState, start_state, get_data_state, Command, ssl_request, startup_message,
  cancel_request, Cursor, Round, next, waits, complete, panicked, spent,
}
use packetbeat.Pgsql.Reading.{fields_parser, rows_parser, error_loop}
use packetbeat.Pgsql.{
  u32_at, byte_at, special_command, round_special, ssl_response, simple_query, as_response,
  row_description, empty_query, end_message, finish_error, error_response, finish_command,
  command_complete, ready_for_query, skip_packet, round_typed, round_start, data_row, round_data,
  round, parse_loop, pgsql_message_parser,
}
use packetbeat.Pgsql.Progress.{
  outside_rows, place, IsCut, IsBehind, Goes, fields_parser-le, rows_parser-le, EndsInside,
  error_loop-EndsInside,
}

-- No start-up message of the data has the length 0.
abbrev pub NoEmptyStartup : Common → Buffer → Type 0
NoEmptyStartup lib d =
    (offset : ℕ) → special_command lib d offset ≡ some startup_message → 0 < u32_at lib d offset

module _ (lib : Common) (d : Buffer) where
  special-positive :
      (offset : ℕ) (command : Command)
      → NoEmptyStartup lib d
      → special_command lib d offset ≡ some command
      → 0 < u32_at lib d offset
  special-positive offset startup_message n e = n offset e
  special-positive offset ssl_request n e = unfold special_command in ground arith
  special-positive offset cancel_request n e = unfold special_command in ground arith

  finish_error-Goes :
      (p : ℕ) (c : Cursor) (r : Round)
      → EndsInside lib d c r
      → c.message.start < c.parse_offset
      → Goes d p (finish_error r)
  unfolding finish_error end_message
  finish_error-Goes p c (next c') e b = ground arith
  finish_error-Goes p c (waits c') e b = absurd e
  finish_error-Goes p c (complete c') e b = absurd e
  finish_error-Goes p c panicked e b = tt
  finish_error-Goes p c spent e b = absurd e

  module _ (c : Cursor) (b : IsBehind c) (s : c.parse_state ≡ start_state) where
    round_special-Goes :
        (command : Command)
        → 0 < u32_at lib d c.parse_offset
        → Goes d (place c) (round_special lib d command c)
    unfolding round_special
    round_special-Goes ssl_request h = ground arith
    round_special-Goes startup_message h = ground arith
    round_special-Goes cancel_request h = ground arith

    module _ (len : ℕ) (five : 5 ≤ length d.bytes - c.parse_offset) where
      simple_query-Goes : Goes d (place c) (simple_query lib d len c)
      unfolding simple_query
      simple_query-Goes = ground arith

      row_description-Goes : Goes d (place c) (row_description lib d len c)
      unfolding row_description
      row_description-Goes =
          let c' : Cursor = record c {
            parse_offset = c.parse_offset + 5;
            message = record (as_response c) { is_ok = true };
          } in
          elim (Option-cases (fields_parser lib d c')) [
            | inl e ↦ ground (arith, e)
            | inr (c'', e) ↦ ground (arith, e, fields_parser-le lib d c' c'' e)
          ]

      empty_query-Goes : Goes d (place c) (empty_query c)
      unfolding empty_query
      empty_query-Goes = ground arith

      error_response-Goes : Goes d (place c) (error_response lib d len c)
      unfolding error_response
      error_response-Goes = elim (Bool-cases (leb (len + 1) (length d.bytes - c.parse_offset))) [
        | inl t ↦ rw t (
            finish_error-Goes (place c) c' (error_loop lib d (suc (length d.bytes)) c')
              (error_loop-EndsInside lib d (suc (length d.bytes)) c' (omega arith) (omega arith))
              (omega arith))
        | inr t ↦ rw t (omega arith)
      ]
        where
          c' : Cursor
          c' = record c {
            parse_offset = c.parse_offset + 5;
            message = record (as_response c) { is_error = true };
          }

      command_complete-Goes : Goes d (place c) (command_complete lib d len c)
      unfolding command_complete finish_command end_message
      command_complete-Goes = ground arith

      ready_for_query-Goes : Goes d (place c) (ready_for_query lib d len c)
      unfolding ready_for_query
      ready_for_query-Goes = ground arith

      skip_packet-Goes : Goes d (place c) (skip_packet lib d len c)
      unfolding skip_packet
      skip_packet-Goes = ground arith

      round_typed-Goes : (typ : ℕ) → Goes d (place c) (round_typed lib d typ len c)
      unfolding round_typed
      round_typed-Goes typ = elim (Bool-cases (typ == b'Q')) [
        | inl t ↦ rw t simple_query-Goes
        | inr q ↦ elim (Bool-cases (typ == b'T')) [
          | inl t ↦ rw (q, t) row_description-Goes
          | inr t ↦ elim (Bool-cases (typ == b'I')) [
            | inl i ↦ rw (q, t, i) empty_query-Goes
            | inr i ↦ elim (Bool-cases (typ == b'E')) [
              | inl e ↦ rw (q, t, i, e) error_response-Goes
              | inr e ↦ elim (Bool-cases (typ == b'C')) [
                | inl k ↦ rw (q, t, i, e, k) command_complete-Goes
                | inr k ↦ elim (Bool-cases (typ == b'Z')) [
                  | inl z ↦ rw (q, t, i, e, k, z) ready_for_query-Goes
                  | inr z ↦ rw (q, t, i, e, k, z) skip_packet-Goes
                ]
              ]
            ]
          ]
        ]
      ]

    ssl_response-Goes :
        ltb c.parse_offset (length d.bytes) ≡ true → Goes d (place c) (ssl_response c)
    unfolding ssl_response
    ssl_response-Goes h = ground arith

    round_start-Goes :
        (expect : Bool)
        → ltb c.parse_offset (length d.bytes) ≡ true
        → NoEmptyStartup lib d
        → Goes d (place c) (round_start lib d expect c)
    unfolding round_start
    round_start-Goes expect h n = elim (Bool-cases (ltb (length d.bytes - c.parse_offset) 5)) [
      | inl t ↦ rw t b
      | inr f ↦ elim (Option-cases (special_command lib d c.parse_offset)) [
        | inr (command, e) ↦
            rw (f, e) (round_special-Goes command (special-positive c.parse_offset command n e))
        | inl e ↦
            let typ = byte_at d c.parse_offset in
            elim (Bool-cases (expect && (typ == b'N' || typ == b'S'))) [
              | inl t ↦ rw (f, e, t) (ssl_response-Goes h)
              | inr t ↦
                  rw (f, e, t)
                    (round_typed-Goes (u32_at lib d (c.parse_offset + 1)) (ground (arith, f)) typ)
            ]
      ]
    ]

  module _ (c : Cursor) (b : IsBehind c) (s : c.parse_state ≡ get_data_state) where
    data_row-Goes : (max max_rows len : ℕ) → Goes d (place c) (data_row lib d max max_rows len c)
    unfolding data_row
    data_row-Goes max max_rows len =
        let c' : Cursor = record c { parse_offset = c.parse_offset + 5 } in
        elim (Option-cases (rows_parser lib d max max_rows c')) [
          | inl e ↦ ground (arith, e)
          | inr (c'', e) ↦ ground (arith, e, rows_parser-le lib d max max_rows c' c'' e)
        ]

    round_data-Goes : (max max_rows : ℕ) → Goes d (place c) (round_data lib d max max_rows c)
    unfolding round_data finish_command end_message
    round_data-Goes max max_rows =
        ground (arith, s, data_row-Goes max max_rows (u32_at lib d (c.parse_offset + 1)))

  round-Goes :
      (state : ParseState) (max max_rows : ℕ) (expect : Bool) (c : Cursor)
      → IsBehind c
      → c.parse_state ≡ state
      → ltb c.parse_offset (length d.bytes) ≡ true
      → NoEmptyStartup lib d
      → Goes d (place c) (round lib d state max max_rows expect c)
  unfolding round
  round-Goes start_state max max_rows expect c b s h n = round_start-Goes c b s expect h n
  round-Goes get_data_state max max_rows expect c b s h n = round_data-Goes c b s max max_rows

-- A result of the parser: it has ended, and a complete message is cut from the data.
abbrev pub Ends : Buffer → Round → Type 0
Ends d (next c) = ⊥
Ends d (waits c) = IsBehind c
Ends d (complete c) = IsCut d c
Ends d panicked = Unit
Ends d spent = ⊥

outside_rows-≤ : (s : ParseState) → outside_rows s ≤ 1
outside_rows-≤ start_state = omega arith
outside_rows-≤ get_data_state = omega arith

module _ (lib : Common) (d : Buffer) (n : NoEmptyStartup lib d) (max max_rows : ℕ)
    (expect : Bool) where
  parse_loop-Ends :
      (fuel : ℕ) (c : Cursor)
      → IsBehind c
      → 0 < fuel
      → 2 * length d.bytes + 1 < fuel + place c
      → Ends d (parse_loop lib d fuel max max_rows expect c)
  unfolding parse_loop
  parse_loop-Ends zero c b z f = absurd (omega arith)
  parse_loop-Ends (suc fuel) c b z f = elim (Bool-cases (ltb c.parse_offset (length d.bytes))) [
    | inr e ↦ rw (e, parse_loop) b
    | inl t ↦
        rw (t, parse_loop)
          (go (round lib d c.parse_state max max_rows expect c)
            (round-Goes lib d c.parse_state max max_rows expect c b refl t n)
            (λ c' b' q.
              parse_loop-Ends fuel c' b' (ground (arith, outside_rows-≤ c.parse_state, t))
                (omega arith)))
  ]
    where
      go :
          (r : Round)
          → Goes d (place c) r
          → ((c' : Cursor)
              → IsBehind c'
              → place c < place c'
              → Ends d (parse_loop lib d fuel max max_rows expect c'))
          → Ends d (elim r [
            | next c' ↦ parse_loop lib d fuel max max_rows expect c'
            | waits c' ↦ waits c'
            | complete c' ↦ complete c'
            | panicked ↦ panicked
            | spent ↦ spent
          ])
      go (next c') g k = k c' g.0 g.1
      go (waits c') g k = g
      go (complete c') g k = g
      go panicked g k = tt
      go spent g k = g

-- `pgsqlMessageParser` ends from every offset that the start of the message is not behind, where
-- no start-up message in the data has the length 0: it never runs out of rounds, a wait leaves the
-- start of the message at or before the offset, and a complete message lies inside the data, is
-- not empty, and ends at the offset.
pub pgsql_message_parser-Ends :
    (lib : Common) (d : Buffer) (max max_rows : ℕ) (expect : Bool) (c : Cursor)
    → NoEmptyStartup lib d
    → IsBehind c
    → Ends d (pgsql_message_parser lib d max max_rows expect c)
unfolding pgsql_message_parser
pgsql_message_parser-Ends lib d max max_rows expect c n b =
    parse_loop-Ends lib d n max max_rows expect _ c b (omega arith) (omega arith)
