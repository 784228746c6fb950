-- ===== src/Pgsql/Endless.antt =====
-- protos/pgsql/pgsql.go, `pgsqlMessageParser` on a start-up message of the length 0.
use packetbeat.Base.{
  ℕ, zero, suc, ◌+◌, ◌-◌, ◌≡◌, Bool, true, false, some, length, ltb, leb, arith, refl, ◌≤◌,
}
use packetbeat.Base.Slice.{Buffer}
use packetbeat.Pgsql.Message.{Common, start_state, Command, startup_message, Cursor, spent}
use packetbeat.Pgsql.{u32_at, special_command, round_special, round_start, round, parse_loop}

pub special_command-long :
    (lib : Common) (d : Buffer) (offset : ℕ) (command : Command)
    → special_command lib d offset ≡ some command
    → 8 ≤ length d.bytes - offset
unfolding special_command
special_command-long lib d offset command e = ground arith

-- The parser does not move on a start-up message of the length 0: no number of rounds is enough.
pub parse_loop_spins :
    (lib : Common) (d : Buffer) (max max_rows : ℕ) (expect : Bool) (c : Cursor)
    → c.parse_state ≡ start_state
    → special_command lib d c.parse_offset ≡ some startup_message
    → u32_at lib d c.parse_offset ≡ 0
    → (fuel : ℕ) → parse_loop lib d fuel max max_rows expect c ≡ spent
unfolding parse_loop round round_start round_special
parse_loop_spins lib d max max_rows expect c s e z zero = refl
parse_loop_spins lib d max max_rows expect c s e z (suc fuel) =
    let c' : Cursor = record c {
      parse_offset = c.parse_offset + u32_at lib d c.parse_offset;
      parse_state = start_state;
    } in
    let stays : c'.parse_offset ≡ c.parse_offset = omega (arith, z) in
    let long = special_command-long lib d c.parse_offset startup_message e in
    let inside : ltb c.parse_offset (length d.bytes) ≡ true = ground (arith, long) in
    let enough : ltb (length d.bytes - c.parse_offset) 5 ≡ false = ground (arith, long) in
    let fits : leb (u32_at lib d c.parse_offset) (length d.bytes - c.parse_offset) ≡ true =
      ground (arith, z) in
    rw (parse_loop, inside, s, enough, e, fits)
      (parse_loop_spins lib d max max_rows expect c' refl (rw stays e) (rw stays z) fuel)
