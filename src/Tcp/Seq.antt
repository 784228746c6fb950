-- ===== src/Tcp/Seq.antt =====
-- protos/tcp/tcp.go, `TcpSeqBefore` and `TcpSeqBeforeEq`: sequence numbers that wrap at 2 ^ 32.
use packetbeat.Base.{ℕ, ◌+◌, ◌≡◌, ◌<◌, ltb, leb, arith}
use packetbeat.Tcp.{u32, tcp_seq_before, tcp_seq_before_eq}

-- Of two positions less than 2 ^ 31 behind a common base, wherever the numbers wrap, the tests
-- tell the earlier one: `TcpSeqBefore` is `<` and `TcpSeqBeforeEq` is `≤` on the positions.
pub tcp_seq_before_window :
    (base i j : ℕ)
    → base < 4294967296
    → i < 2147483648
    → j < 2147483648
    → (tcp_seq_before (u32 (base + i)) (u32 (base + j)) ≡ ltb i j)
      × (tcp_seq_before_eq (u32 (base + i)) (u32 (base + j)) ≡ leb i j)
unfolding tcp_seq_before tcp_seq_before_eq
tcp_seq_before_window base i j hb hi hj = (ground arith, ground arith)
