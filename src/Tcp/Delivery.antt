-- ===== src/Tcp/Delivery.antt =====
-- protos/tcp/tcp.go, `FollowTcp` over many segments: what reaches the protocol plugin.
use packetbeat.Base.{
  ℕ, ◌<◌, ◌≡◌, refl, sym, subst, ◌∙◌, ap, true, false, List, [], ◌∷◌, Option, some, length,
  get_elem?, get_elem?-set_self, get_elem?-lt, set-set, arith, ltb, lt→ltb,
}
use packetbeat.Base.GoMap.{bytes_instance}
use packetbeat.Protos
use packetbeat.Protos.{Packet, TcpTuple, IpPortTuple, Call, returns, panics, Plugin}
use packetbeat.Tcp.{
  TcpHeader, TcpStream, TcpState, Env, write, finish_call, received_fin, add_packet, follow_segment,
  follow_tcp, last_seq, with_last_seq, tcp_seq_before, tcp_seq_before_eq,
}
use packetbeat.Tcp.Order.{Finds, end_seq, follow_tcp-Finds}
use packetbeat.Tcp.Table.{follow_all}

-- A plugin whose `Parse` always returns: its effect on the shared state and on the private data.
pub record Parser (W D : Type 0) : Type 0 where
  pub next_world : Packet → TcpTuple → ℕ → Option D → W → W
  pub next_payload : Packet → TcpTuple → ℕ → Option D → W → Option D

-- Segments of one direction with a payload and no FIN flag, each starting where the last ended.
abbrev pub IsContiguous : IpPortTuple → ℕ → List (TcpHeader × Packet) → Type 0
IsContiguous tuple seq [] = Unit
IsContiguous tuple seq ((hdr, pkt) ∷ rest) =
    (pkt.tuple ≡ tuple)
    × (hdr.seq ≡ seq)
    × (hdr.fin ≡ false)
    × (0 < length pkt.payload)
    × (length pkt.payload < 2147483648)
    × IsContiguous tuple (end_seq hdr pkt) rest

module _ {W D : Type 0} where
  -- The plugin's `Parse` is that of the parser.
  abbrev pub Parses : Plugin W D → Parser W D → Type 0
  Parses mod_ parser =
      (pkt : Packet) (t : TcpTuple) (dir : ℕ) (d : Option D) (w : W)
      → mod_.parse pkt t dir d w
        ≡ (parser.next_world pkt t dir d w, returns (parser.next_payload pkt t dir d w))

  -- What the plugin has seen after the packets, one `Parse` for each in their order.
  unfoldable pub parse_all :
      Parser W D → TcpTuple → ℕ → List (TcpHeader × Packet) → Option D → W → Option D × W
  parse_all parser t dir [] d w = (d, w)
  parse_all parser t dir ((hdr, pkt) ∷ rest) d w =
      parse_all parser t dir rest (parser.next_payload pkt t dir d w)
        (parser.next_world pkt t dir d w)

  -- The stream after an accepted segment.
  abbrev accepted : Parser W D → TcpHeader → Packet → ℕ → TcpStream D → W → TcpStream D
  accepted parser hdr pkt dir s w = record (with_last_seq dir (end_seq hdr pkt) s) {
    timer = true;
    payload = parser.next_payload pkt s.tcptuple dir s.payload w;
  }

  received_fin_none :
      (mod_ : Plugin W D) (hdr : TcpHeader) (p dir : ℕ) (st : TcpState W D)
      → hdr.fin ≡ false
      → received_fin mod_ hdr p dir st ≡ st
  unfolding received_fin
  received_fin_none mod_ hdr p dir st h = ground arith

  module _ (env : Env W D) (mod_ : Plugin W D) (parser : Parser W D) (parses : Parses mod_ parser)
      (p dir : ℕ) where
    add_packet_parses :
        (hdr : TcpHeader) (pkt : Packet) (s : TcpStream D) (st : TcpState W D)
        → get_elem? st.objects p ≡ some s
        → Protos.get env.protos s.protocol ≡ some mod_
        → hdr.fin ≡ false
        → ltb 0 (length pkt.payload) ≡ true
        → add_packet env pkt hdr p dir s st
          ≡ record (write p
              (record s {
                timer = true;
                payload = parser.next_payload pkt s.tcptuple dir s.payload st.world;
              })
              st) { world = parser.next_world pkt s.tcptuple dir s.payload st.world }
    unfolding add_packet
    add_packet_parses hdr pkt s st e m nofin pos =
        rw (m, add_packet)
          (rw pos (
            rw (parses pkt s.tcptuple dir s.payload st.world) (
              unfold finish_call in
              received_fin_none mod_ hdr p dir _ nofin
              ∙ ap
                  (λ os. record st {
                    objects = os;
                    world = parser.next_world pkt s.tcptuple dir s.payload st.world;
                  })
                  (set-set st.objects p _ _))))

    -- A segment that starts where the last one of its direction ended is parsed once.
    follow_tcp_next :
        (hdr : TcpHeader) (pkt : Packet) (s : TcpStream D) (st : TcpState W D)
        → Finds env pkt.tuple st p dir
        → get_elem? st.objects p ≡ some s
        → Protos.get env.protos s.protocol ≡ some mod_
        → hdr.fin ≡ false
        → 0 < length pkt.payload
        → length pkt.payload < 2147483648
        → last_seq dir s < 4294967296
        → hdr.seq ≡ last_seq dir s
        → follow_tcp env hdr pkt st ≡ record (write p (accepted parser hdr pkt dir s st.world) st) {
          world = parser.next_world pkt s.tcptuple dir s.payload st.world;
        }
    follow_tcp_next hdr pkt s st found e m nofin pos small range at =
        follow_tcp-Finds env hdr pkt st p dir s found e
        ∙ is_next
        ∙ add_packet_parses hdr pkt s' (write p s' st)
            (get_elem?-set_self st.objects p s' (get_elem?-lt st.objects p e)) m nofin
            (lt→ltb _ _ pos)
        ∙ ap
            (λ os. record st {
              objects = os;
              world = parser.next_world pkt s.tcptuple dir s.payload st.world;
            })
            (set-set st.objects p _ _)
      where
        s' : TcpStream D
        s' = with_last_seq dir (end_seq hdr pkt) s

        is_next :
            follow_segment env hdr pkt p dir false s st
            ≡ add_packet env pkt hdr p dir s' (write p s' st)
        is_next = unfold follow_segment tcp_seq_before tcp_seq_before_eq in ground arith

    -- The plugin's state and the stream's private data after all the segments.
    abbrev pub Delivered : TcpState W D → Option D × W → Type 0
    Delivered st r =
        (st.world ≡ r.1)
        × ((s : TcpStream D) × (get_elem? st.objects p ≡ some s) × (s.payload ≡ r.0))

    -- Segments of one direction of a known stream, each with 1 to 2 ^ 31 - 1 bytes of payload and
    -- without FIN, each starting where the last one ended (the first where the stream stands), are
    -- handed to the plugin's `Parse` exactly once each and in their order.
    pub follow_all_delivers :
        (tuple : IpPortTuple) (segments : List (TcpHeader × Packet)) (s : TcpStream D)
        (st : TcpState W D)
        → Finds env tuple st p dir
        → get_elem? st.objects p ≡ some s
        → Protos.get env.protos s.protocol ≡ some mod_
        → last_seq dir s < 4294967296
        → IsContiguous tuple (last_seq dir s) segments
        → Delivered
            (follow_all env segments st)
            (parse_all parser s.tcptuple dir segments s.payload st.world)
    unfolding parse_all follow_all
    follow_all_delivers tuple [] s st found e m range c = (refl, (s, e, refl))
    follow_all_delivers tuple ((hdr, pkt) ∷ rest) s st found e m range
          (tup, at, nofin, pos, small, c) =
        let step = follow_tcp_next hdr pkt s st (rw tup found) e m nofin pos small range at in
        subst (λ x. Delivered (follow_all env rest x) goal) (sym step)
          (follow_all_delivers tuple rest s' st' found
            (get_elem?-set_self st.objects p s' (get_elem?-lt st.objects p e)) m
            (rw seen (omega arith)) (rw seen c))
      where
        s' : TcpStream D
        s' = accepted parser hdr pkt dir s st.world

        st' : TcpState W D
        st' = record (write p s' st) {
          world = parser.next_world pkt s.tcptuple dir s.payload st.world;
        }

        goal : Option D × W
        goal = parse_all parser s.tcptuple dir rest s'.payload st'.world

        seen : last_seq dir s' ≡ end_seq hdr pkt
        seen = ground arith
