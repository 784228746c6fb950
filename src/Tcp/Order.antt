-- ===== src/Tcp/Order.antt =====
-- protos/tcp/tcp.go, `FollowTcp`: which stream and direction a packet belongs to, and what becomes
-- of a segment that repeats old bytes, that leaves a gap, or that is the next one.
use packetbeat.Base.{
  ℕ, ◌+◌, ◌<◌, ◌≡◌, ◌≢◌, refl, sym, ◌∙◌, ap, Bool, true, false, Option, none, some, length,
  get_elem?, get_elem?-set_self, get_elem?-lt, ◌⊎◌, inl, inr, arith,
}
use packetbeat.Base.GoMap.{lookup, lookup-delete, beq_refl, beq_ne, bytes_instance}
use packetbeat.Base.Text.{Bytes}
use packetbeat.Protos
use packetbeat.Protos.{Packet, IpPortTuple, Call, returns, panics, Plugin}
use packetbeat.Tcp.{
  u32, TcpHeader, TcpStream, TcpState, Env, write, finish_call, expire, gap_in_stream, drop_stream,
  follow_segment, follow_at, follow_tcp, last_seq, tcp_seq_before, tcp_seq_before_eq,
}

-- The number behind the last byte of the segment.
abbrev pub end_seq : TcpHeader → Packet → ℕ
end_seq hdr pkt = u32 (hdr.seq + u32 (length pkt.payload))

module _ {W D : Type 0} where
  -- A packet with this tuple belongs to the stream at `p`, in the direction `dir`: 1 where the stream was made
  -- by a packet with the same tuple, 0 where it was made by one with the tuple reversed.
  abbrev pub Finds : Env W D → IpPortTuple → TcpState W D → ℕ → ℕ → Type 0
  Finds env tuple st p dir =
      ((lookup (env.tuples.hashable tuple) st.streams ≡ some p) × (dir ≡ 1))
      ⊎ ((lookup (env.tuples.hashable tuple) st.streams ≡ none)
          × (lookup (env.tuples.rev_hashable tuple) st.streams ≡ some p)
          × (dir ≡ 0))

  pub follow_tcp-Finds :
      (env : Env W D) (hdr : TcpHeader) (pkt : Packet) (st : TcpState W D) (p dir : ℕ)
      (s : TcpStream D)
      → Finds env pkt.tuple st p dir
      → get_elem? st.objects p ≡ some s
      → follow_tcp env hdr pkt st ≡ follow_segment env hdr pkt p dir false s st
  unfolding follow_tcp follow_at
  follow_tcp-Finds env hdr pkt st p dir s (inl (h, d)) e =
      rw (h, follow_tcp) (rw (e, follow_at) (rw d))
  follow_tcp-Finds env hdr pkt st p dir s (inr (n, h, d)) e =
      rw (n, h, follow_tcp) (rw (e, follow_at) (rw d))

  -- A segment with a payload that ends at, or less than 2 ^ 31 before, the last number seen in
  -- its direction changes nothing: no plugin is called, no timer is reset.
  pub follow_tcp_retransmitted :
      (env : Env W D) (hdr : TcpHeader) (pkt : Packet) (st : TcpState W D) (p dir : ℕ)
      (s : TcpStream D) (back : ℕ)
      → Finds env pkt.tuple st p dir
      → get_elem? st.objects p ≡ some s
      → 0 < length pkt.payload
      → last_seq dir s ≢ 0
      → back < 2147483648
      → last_seq dir s ≡ u32 (end_seq hdr pkt + back)
      → follow_tcp env hdr pkt st ≡ st
  follow_tcp_retransmitted env hdr pkt st p dir s back found e n nz hb at =
      rw (follow_tcp-Finds env hdr pkt st p dir s found e)
        (unfold follow_segment tcp_seq_before_eq in ground arith)

  module _ (env : Env W D) (p dir : ℕ) (s : TcpStream D) (st : TcpState W D) (mod_ : Plugin W D)
      (w : W) (d : Option D) (e : get_elem? st.objects p ≡ some s)
      (m : Protos.get env.protos s.protocol ≡ some mod_)
      (g : mod_.gap_in_stream s.tcptuple dir s.payload st.world ≡ (w, returns d)) where
    gap_in_stream_returns :
        gap_in_stream env p dir s st
        ≡ (record (write p (record s { payload = d }) st) { world = w }, true)
    unfolding gap_in_stream
    gap_in_stream_returns = rw (m, gap_in_stream) (rw g (unfold finish_call in refl))

    drop_stream_returns :
        drop_stream env p dir s st
        ≡ expire env p
            (record s { payload = d })
            (record (write p (record s { payload = d }) st) { world = w })
    unfolding drop_stream
    drop_stream_returns =
        rw (gap_in_stream_returns, drop_stream)
          (rw
            (get_elem?-set_self st.objects p (record s { payload = d })
              (get_elem?-lt st.objects p e))
            (ap (λ (r : TcpState W D × Bool). expire env p (record s { payload = d }) r.0)
              gap_in_stream_returns))

  -- A segment with a payload that starts past the last number seen in its direction, by less than
  -- 2 ^ 31 with its length, drops the stream. Its plugin is told of the gap and of nothing else,
  -- the stream's key leaves the table, and every other key stays as it was.
  pub follow_tcp_gap :
      (env : Env W D) (hdr : TcpHeader) (pkt : Packet) (st : TcpState W D) (p dir : ℕ)
      (s : TcpStream D) (ahead : ℕ) (mod_ : Plugin W D) (w : W) (d : Option D)
      → Finds env pkt.tuple st p dir
      → get_elem? st.objects p ≡ some s
      → Protos.get env.protos s.protocol ≡ some mod_
      → mod_.gap_in_stream s.tcptuple dir s.payload st.world ≡ (w, returns d)
      → 0 < length pkt.payload
      → last_seq dir s ≢ 0
      → last_seq dir s < 4294967296
      → 0 < ahead
      → ahead + length pkt.payload < 2147483648
      → hdr.seq ≡ u32 (last_seq dir s + ahead)
      → ((follow_tcp env hdr pkt st).world ≡ w)
        × (lookup (env.tuples.hashable s.tuple) (follow_tcp env hdr pkt st).streams ≡ none)
        × ((k : Bytes)
            → k ≢ env.tuples.hashable s.tuple
            → lookup k (follow_tcp env hdr pkt st).streams ≡ lookup k st.streams)
  follow_tcp_gap env hdr pkt st p dir s ahead mod_ w d found e m g n nz hl lo hi at = rw dropped (
      unfold expire in
      (
        refl,
        lookup-delete key key st.streams ∙ rw (beq_refl key),
        λ k ne. lookup-delete key k st.streams ∙ rw (beq_ne key k (λ q. ne (sym q))),
      ))
    where
      key : Bytes
      key = env.tuples.hashable s.tuple

      is_gap : follow_segment env hdr pkt p dir false s st ≡ drop_stream env p dir s st
      is_gap = unfold follow_segment tcp_seq_before tcp_seq_before_eq in ground arith

      dropped :
          follow_tcp env hdr pkt st
          ≡ expire env p
              (record s { payload = d })
              (record (write p (record s { payload = d }) st) { world = w })
      dropped =
          follow_tcp-Finds env hdr pkt st p dir s found e
          ∙ is_gap
          ∙ drop_stream_returns env p dir s st mod_ w d e m g
