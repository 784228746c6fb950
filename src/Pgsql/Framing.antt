-- ===== src/Pgsql/Framing.antt =====
-- protos/pgsql/pgsql.go, `pgsqlMessageParser` on the packet of a simple query.
use packetbeat.Base.{
  ℕ, suc, ◌+◌, ◌-◌, ◌*◌, ◌/◌, ◌%◌, ◌≤◌, ◌<◌, ◌++◌, ◌≡◌, ◌≢◌, inl, inr, refl, sym, ap, ◌∙◌, Bool,
  true, false, ◌&&◌, if◌then◌else◌, [], ◌∷◌, none, length, length-append, take, drop,
  take-append_length, append_assoc, append-nil, take-append_le, drop-append_le, length-drop, get_or,
  ltb, leb, arith, Bool-cases,
}
use packetbeat.Base.Text.{Bytes}
use packetbeat.Pgsql.Message.{
  Common, IsCommon, IsText, start_state, PgsqlMessage, Cursor, Round, waits, complete,
}
use packetbeat.Pgsql.{
  ssl_response, u32_at, special_command, simple_query, round_typed, round_start, round, parse_loop,
  pgsql_message_parser,
}

-- A number as four bytes.
abbrev pub u32_bytes : ℕ → Bytes
u32_bytes n = n / 16777216 ∷ n / 65536 % 256 ∷ n / 256 % 256 ∷ n % 256 ∷ []

-- The packet of a simple query: its type, the length, and the text with a byte 0.
abbrev pub query_packet : Bytes → Bytes
query_packet q = b'Q' ∷ (u32_bytes (length q + 5) ++ (q ++ 0 ∷ []))

abbrev pub at_start : PgsqlMessage → Cursor
at_start m = record { parse_offset = 0; parse_state = start_state; message = m }

-- The message of a query, from the one that was begun.
abbrev pub query_message : Bytes → PgsqlMessage → PgsqlMessage
query_message q m = record m {
  start = 0;
  end = length q + 6;
  is_request = true;
  query = q;
  to_export = true;
}

-- The message once the type is read.
abbrev pub begun : PgsqlMessage → PgsqlMessage
begun m = record m { start = 0; is_request = true }

module _ (lib : Common) (ok : IsCommon lib) (spare : Bytes) where
  u32_bytes-ntohl : (n : ℕ) → n < 4294967296 → lib.ntohl (u32_bytes n) ≡ n
  u32_bytes-ntohl n h =
      ok.ntohl_is (n / 16777216) (n / 65536 % 256) (n / 256 % 256) (n % 256) ∙ omega arith

  -- Neither are the next four bytes the code of a start-up message.
  code_query :
      (n : ℕ) (q rest : Bytes)
      → IsText q
      → n ≡ (length q + 5) % 256
      → 3 ≤ length ((q ++ 0 ∷ []) ++ rest)
      → lib.ntohl (take 4 (n ∷ ((q ++ 0 ∷ []) ++ rest))) ≢ 196608
  code_query n [] [] t e h = absurd (omega arith)
  code_query n [] (a ∷ []) t e h = absurd (omega arith)
  code_query n [] (a ∷ b ∷ rest) t e h = omega (arith, ok.ntohl_is n 0 a b)
  code_query n (x ∷ []) [] t e h = absurd (omega arith)
  code_query n (x ∷ []) (a ∷ rest) t e h = omega (arith, ok.ntohl_is n x 0 a)
  code_query n (x ∷ y ∷ []) rest t e h = omega (arith, ok.ntohl_is n x y 0)
  code_query n (x ∷ y ∷ z ∷ q) rest t e h = omega (arith, ok.ntohl_is n x y z)

  -- The first bytes of a query are no special command.
  special_command_query :
      (q rest : Bytes)
      → IsText q
      → special_command lib (record { bytes = query_packet q ++ rest; spare = spare }) 0 ≡ none
  unfolding special_command
  special_command_query q rest t =
      let n = length q + 5 in
      elim (Bool-cases (ltb (5 + length ((q ++ 0 ∷ []) ++ rest)) 8)) [
        | inl e ↦ ground (arith, e)
        | inr e ↦ ground (
          arith,
          e,
          code_query (n % 256) q rest t refl (ground (arith, e)),
          ok.ntohl_is 81 (n / 16777216) (n / 65536 % 256) (n / 256 % 256),
        )
      ]

  -- What the data begin with does not change when more are appended.
  u32_at-append :
      (a b : Bytes) (offset : ℕ)
      → offset + 4 ≤ length a
      → u32_at lib (record { bytes = a ++ b; spare = spare }) offset
        ≡ u32_at lib (record { bytes = a; spare = spare }) offset
  u32_at-append a b offset h =
      ap (λ s. lib.ntohl (take 4 s)) (drop-append_le offset a b (omega arith))
      ∙ ap lib.ntohl (take-append_le 4 (drop offset a) b (omega (arith, length-drop offset a)))

  special_command-append :
      (a b : Bytes)
      → special_command lib (record { bytes = a ++ b; spare = spare }) 0 ≡ none
      → special_command lib (record { bytes = a; spare = spare }) 0 ≡ none
  unfolding special_command
  special_command-append a b e = elim (Bool-cases (ltb (length a - 0) 8)) [
    | inl t ↦ ground (arith, t)
    | inr t ↦
        let f = u32_at-append a b 0 (ground (arith, t)) in
        let g = u32_at-append a b 4 (ground (arith, t)) in
        ground (arith, t, f, g, length-append a b)
  ]

  first-append : (a b : Bytes) → 0 < length a → get_or (a ++ b) 0 0 ≡ get_or a 0 0
  first-append [] b h = absurd (omega arith)
  first-append (x ∷ a) b h = refl

  -- The length behind the type of a query.
  u32_at_query :
      (q rest : Bytes)
      → length q < 4294967291
      → u32_at lib (record { bytes = query_packet q ++ rest; spare = spare }) 1 ≡ length q + 5
  u32_at_query q rest h = u32_bytes-ntohl (length q + 5) (omega arith)

  -- On some data that begin as a query does, the parser is at `typ == 'Q'`.
  round_query :
      (max max_rows : ℕ) (expect : Bool) (a b q : Bytes) (m : PgsqlMessage)
      → IsText q
      → length q < 4294967291
      → (rest : Bytes) → a ++ b ≡ query_packet q ++ rest
      → 5 ≤ length a
      → round lib (record { bytes = a; spare = spare }) start_state max max_rows expect (at_start m)
        ≡ simple_query lib (record { bytes = a; spare = spare }) (length q + 5) (at_start m)
  unfolding round round_start round_typed
  round_query max max_rows expect a b q m t h rest e five =
      let short : ltb (length a - 0) 5 ≡ false = ground arith in
      let plain = special_command-append a b (rw e (special_command_query q rest t)) in
      let typed : get_or a 0 0 ≡ b'Q' =
        sym (first-append a b (omega arith)) ∙ ap (λ s. get_or s 0 0) e in
      let len : u32_at lib (record { bytes = a; spare = spare }) 1 ≡ length q + 5 =
        sym (u32_at-append a b 1 five)
        ∙ ap (λ s. u32_at lib (record { bytes = s; spare = spare }) 1) e
        ∙ u32_at_query q rest h in
      rw (short, plain, typed, len) (go expect)
    where
      go :
          (expect : Bool)
          → (if expect && false
              then ssl_response (at_start m)
              else simple_query lib
                  (record { bytes = a; spare = spare })
                  (length q + 5)
                  (at_start m))
            ≡ simple_query lib (record { bytes = a; spare = spare }) (length q + 5) (at_start m)
      go true = refl
      go false = refl

  module _ (max max_rows : ℕ) (expect : Bool) (m : PgsqlMessage) where
    -- Where fewer than five bytes have come, the parser waits, and where the packet is not whole,
    -- too; it has then begun the message.
    pub parser_short :
        (a : Bytes)
        → 0 < length a
        → length a < 5
        → pgsql_message_parser lib
            (record { bytes = a; spare = spare })
            max
            max_rows
            expect
            (at_start m)
          ≡ waits (at_start m)
    unfolding pgsql_message_parser parse_loop round round_start
    parser_short a h five =
        let fuel : 2 * length a + 2 ≡ suc (2 * length a + 1) = omega arith in
        let more : ltb 0 (length a) ≡ true = ground arith in
        let short : ltb (length a - 0) 5 ≡ true = ground arith in
        rw (fuel, parse_loop, more, short) refl

    module _ (q : Bytes) (t : IsText q) (h : length q < 4294967291) where
      pub parser_part :
          (a b : Bytes)
          → a ++ b ≡ query_packet q
          → 5 ≤ length a
          → length a < length q + 6
          → pgsql_message_parser lib
              (record { bytes = a; spare = spare })
              max
              max_rows
              expect
              (at_start m)
            ≡ waits (at_start (begun m))
      unfolding pgsql_message_parser parse_loop simple_query
      parser_part a b e five l =
          let fuel : 2 * length a + 2 ≡ suc (2 * length a + 1) = omega arith in
          let more : ltb 0 (length a) ≡ true = ground arith in
          let part : leb (length q + 5 + 1) (length a - 0) ≡ false = ground arith in
          rw
            (
              fuel,
              parse_loop,
              more,
              round_query max max_rows expect a b q m t h [] (e ∙ sym (append-nil _)) five,
              simple_query,
              part,
            )
            refl

      -- The request with a text, that ends at an offset.
      abbrev asked : Bytes → ℕ → Round
      asked text n = complete (record {
        parse_offset = n;
        parse_state = start_state;
        message = record (query_message q m) { end = n; query = text };
      })

      text_of_query : (rest : Bytes) → take (length q) ((q ++ 0 ∷ []) ++ rest) ≡ q
      text_of_query rest =
          ap (take (length q)) (append_assoc q (0 ∷ []) rest) ∙ take-append_length q (0 ∷ rest)

      simple_query_whole :
          (rest : Bytes)
          → simple_query lib
              (record { bytes = query_packet q ++ rest; spare = spare })
              (length q + 5)
              (at_start m)
            ≡ asked q (length q + 6)
      unfolding simple_query
      simple_query_whole rest =
          let a = query_packet q ++ rest in
          let whole : leb (length q + 5 + 1) (length a - 0) ≡ true =
            ground (arith, length-append (q ++ 0 ∷ []) rest, length-append q (0 ∷ [])) in
          let end : 0 + 1 + (length q + 5) ≡ length q + 6 = omega arith in
          let room : ltb (length q + 6) (0 + 6) ≡ false = ground arith in
          let size : length q + 6 - 1 - (0 + 5) ≡ length q = omega arith in
          rw (whole, end, room)
            (ap (λ n. asked (take n ((q ++ 0 ∷ []) ++ rest)) (length q + 6)) size
              ∙ ap (λ text. asked text (length q + 6)) (text_of_query rest))

      pub parser_whole :
          (rest : Bytes)
          → pgsql_message_parser lib
              (record { bytes = query_packet q ++ rest; spare = spare })
              max
              max_rows
              expect
              (at_start m)
            ≡ asked q (length q + 6)
      unfolding pgsql_message_parser parse_loop
      parser_whole rest =
          let a = query_packet q ++ rest in
          let fuel : 2 * length a + 2 ≡ suc (2 * length a + 1) = omega arith in
          let more : ltb 0 (length a) ≡ true = ground arith in
          rw
            (
              fuel,
              parse_loop,
              more,
              round_query max max_rows expect a [] q m t h rest (append-nil _) (ground arith),
              simple_query_whole rest,
            )
            refl

-- From the start of a message, the packet of a text without the byte 0, shorter than 2 ^ 32 - 5
-- bytes, is one complete request with that text, whatever follows it and whether a reply to an SSL
-- request is expected or not: the message ends where the packet does, and so does the offset.
pgsql_message_parser_query :
    (lib : Common) (spare : Bytes) (max max_rows : ℕ) (expect : Bool) (m : PgsqlMessage)
    (q rest : Bytes)
    → IsCommon lib
    → IsText q
    → length q < 4294967291
    → pgsql_message_parser lib
        (record { bytes = query_packet q ++ rest; spare = spare })
        max
        max_rows
        expect
        (at_start m)
      ≡ complete (record {
        parse_offset = length q + 6;
        parse_state = start_state;
        message = query_message q m;
      })
pgsql_message_parser_query lib spare max max_rows expect m q rest ok t h =
    parser_whole lib ok spare max max_rows expect m q t h rest
