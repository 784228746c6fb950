-- ===== src/Tcp/Table.antt =====
-- protos/tcp/tcp.go: the invariant of `tcpStreamsMap`, and the expiry timers of its streams.
use packetbeat.Base.{
  ℕ, ◌≡◌, refl, sym, ◌∙◌, ap, true, false, List, [], ◌∷◌, none, some, length, get_elem?, set,
  get_elem?-set_self, get_elem?-set_ne, get_elem?-lt, get_elem?-append_left, get_elem?-append_end,
  ◌==◌, inl, inr, arith, Option-cases, Bool-cases,
}
use packetbeat.Base.GoMap.{
  lookup, lookup-put, lookup-delete, bytes_instance, nat_eq, bytes_eq_iff, bytes_eq, beq_refl,
}
use native.Mathlib.Decide.{ℕ_discrete}
use packetbeat.Base.Text.{Bytes}
use packetbeat.Protos
use packetbeat.Protos.{Packet, IpPortTuple, Call, returns, panics, Plugin}
use packetbeat.Tcp.{
  TcpHeader, TcpStream, TcpState, Env, expire, timer_fires, follow_tcp, create, new_stream, get_id,
  decide_protocol, unknown_protocol,
}
use packetbeat.Tcp.Objects.{
  Extends, Extends-refl, Extends-append, Extends-trans, Moves, follow_at-Moves,
}

module _ {W D : Type 0} where
  -- A plugin is registered for the protocol.
  abbrev pub IsRegistered : Env W D → ℕ → Type 0
  IsRegistered env proto = (mod_ : Plugin W D) × (Protos.get env.protos proto ≡ some mod_)

  -- The ports lead to registered protocols only.
  abbrev pub IsServed : Env W D → Type 0
  IsServed env = (q r : ℕ) → lookup q env.port_map ≡ some r → IsRegistered env r

  -- Every key points to a stream in the store, whose own tuple has that key and whose protocol
  -- has a plugin.
  pub record IsWellFormed (env : Env W D) (st : TcpState W D) : Type 0 where
    pub mapped :
        (k : Bytes) (p : ℕ)
        → lookup k st.streams ≡ some p
        → (s : TcpStream D) × (get_elem? st.objects p ≡ some s)
          × (env.tuples.hashable s.tuple ≡ k)
          × IsRegistered env s.protocol

  Moves-IsWellFormed :
      (env : Env W D) {st st' : TcpState W D}
      → Moves st st'
      → IsWellFormed env st
      → IsWellFormed env st'
  Moves-IsWellFormed env m wf = record {
    mapped = λ k p e.
        let (s, at, key, reg) = wf.mapped k p (m.fewer k p e) in
        let (s', at', kept) = m.extends.keeps p s at in
        (s', at', ap env.tuples.hashable kept.same_tuple ∙ key, rw (← kept.same_protocol) at reg);
  }

  create-mapped :
      (env : Env W D) (pkt : Packet) (protocol : ℕ) (st : TcpState W D)
      → IsRegistered env protocol
      → IsWellFormed env st
      → (k : Bytes) (p : ℕ) → lookup k (create env pkt protocol st).streams ≡ some p
      → (s : TcpStream D) × (get_elem? (create env pkt protocol st).objects p ≡ some s)
        × (env.tuples.hashable s.tuple ≡ k)
        × IsRegistered env s.protocol
  unfolding create
  create-mapped env pkt protocol st reg wf k p e =
      elim (Bool-cases (bytes_eq (env.tuples.hashable pkt.tuple) k)) [
        | inl same ↦
            let p_is : length st.objects ≡ p = ground (
              arith,
              lookup-put (env.tuples.hashable pkt.tuple) k (length st.objects) st.streams,
            ) in
            (
              new_stream env pkt protocol (get_id st),
              rw (← p_is) (get_elem?-append_end st.objects _),
              (bytes_eq_iff _ _).0 same,
              reg,
            )
        | inr differ ↦
            let old : lookup k st.streams ≡ some p = ground (
              arith,
              lookup-put (env.tuples.hashable pkt.tuple) k (length st.objects) st.streams,
            ) in
            let (s, at, key, r) = wf.mapped k p old in
            (s, get_elem?-append_left st.objects _ p at, key, r)
      ]

  decide_protocol-IsRegistered :
      (env : Env W D) (tuple : IpPortTuple)
      → IsServed env
      → (decide_protocol env.port_map tuple == unknown_protocol) ≡ false
      → IsRegistered env (decide_protocol env.port_map tuple)
  decide_protocol-IsRegistered env tuple served ne =
      elim (Option-cases (lookup tuple.src_port env.port_map)) [
        | inr (r, e) ↦ unfold decide_protocol in rw (e, decide_protocol) (served _ r e)
        | inl e ↦ elim (Option-cases (lookup tuple.dst_port env.port_map)) [
          | inr (r, e') ↦ unfold decide_protocol in rw (e, e', decide_protocol) (served _ r e')
          | inl e' ↦ absurd (unfold decide_protocol in ground arith)
        ]
      ]

  -- Whatever packet is followed, and whatever the plugins do, the table stays well formed, where
  -- the ports lead to registered protocols only.
  pub follow_tcp-IsWellFormed :
      (env : Env W D) (hdr : TcpHeader) (pkt : Packet) (st : TcpState W D)
      → IsServed env
      → IsWellFormed env st
      → IsWellFormed env (follow_tcp env hdr pkt st)
  unfolding follow_tcp
  follow_tcp-IsWellFormed env hdr pkt st served wf =
      elim (Option-cases (lookup (env.tuples.hashable pkt.tuple) st.streams)) [
        | inr (p, e) ↦
            rw (e, follow_tcp)
              (Moves-IsWellFormed env (follow_at-Moves env hdr pkt p 1 false st) wf)
        | inl e ↦ elim (Option-cases (lookup (env.tuples.rev_hashable pkt.tuple) st.streams)) [
          | inr (p, e') ↦
              rw (e, e', follow_tcp)
                (Moves-IsWellFormed env (follow_at-Moves env hdr pkt p 0 false st) wf)
          | inl e' ↦
              rw (e, e', follow_tcp)
                (elim (Bool-cases (decide_protocol env.port_map pkt.tuple == 0)) [
                  | inl t ↦ rw t wf
                  | inr f ↦ rw f (
                      Moves-IsWellFormed env (follow_at-Moves env hdr pkt _ 1 true _) (record {
                        mapped =
                            create-mapped env pkt _ st
                              (decide_protocol-IsRegistered env pkt.tuple served f) wf;
                      }))
                ])
        ]
      ]

  -- A write that keeps tuple and protocol keeps what a key points to well formed.
  write-mapped :
      (env : Env W D) (p : ℕ) (s s' : TcpStream D) (st : TcpState W D)
      → get_elem? st.objects p ≡ some s
      → s'.tuple ≡ s.tuple
      → s'.protocol ≡ s.protocol
      → IsWellFormed env st
      → (k : Bytes) (q : ℕ) → lookup k st.streams ≡ some q
      → (t : TcpStream D) × (get_elem? (set st.objects p s') q ≡ some t)
        × (env.tuples.hashable t.tuple ≡ k)
        × IsRegistered env t.protocol
  write-mapped env p s s' st e tup pro wf k q h =
      let (t, at, key, reg) = wf.mapped k q h in
      elim (ℕ_discrete p q) [
        | yes same ↦
            let t_is : t ≡ s = ground (arith, ap (get_elem? st.objects) same) in
            (
              s',
              rw (← same) (get_elem?-set_self st.objects p s' (get_elem?-lt st.objects p e)),
              ap env.tuples.hashable (tup ∙ ap (λ (x : TcpStream D). x.tuple) (sym t_is)) ∙ key,
              rw (pro ∙ ap (λ (x : TcpStream D). x.protocol) (sym t_is)) reg,
            )
        | no differ ↦ (t, get_elem?-set_ne st.objects s' differ ∙ at, key, reg)
      ]

  -- A timer may fire at any time, and the table stays well formed.
  timer_fires-IsWellFormed :
      (env : Env W D) (p : ℕ) (st : TcpState W D)
      → IsWellFormed env st
      → IsWellFormed env (timer_fires env p st)
  unfolding timer_fires expire
  timer_fires-IsWellFormed env p st wf = elim (Option-cases (get_elem? st.objects p)) [
    | inl e ↦ rw (e, timer_fires) wf
    | inr (s, e) ↦
        rw (e, timer_fires)
          (elim (Bool-cases s.timer) [
            | inl t ↦ rw t (record {
              mapped = λ k q h.
                  write-mapped env p s _ st e refl refl wf k q
                    (ground (arith, lookup-delete (env.tuples.hashable s.tuple) k st.streams));
            })
            | inr f ↦ rw f wf
          ])
  ]

  create-Extends :
      (env : Env W D) (pkt : Packet) (protocol : ℕ) (st : TcpState W D)
      → Extends st.objects (create env pkt protocol st).objects
  unfolding create
  create-Extends env pkt protocol st = Extends-append st.objects _

  -- Following any packet keeps every stream under its pointer.
  pub follow_tcp-Extends :
      (env : Env W D) (hdr : TcpHeader) (pkt : Packet) (st : TcpState W D)
      → Extends st.objects (follow_tcp env hdr pkt st).objects
  unfolding follow_tcp
  follow_tcp-Extends env hdr pkt st =
      elim (Option-cases (lookup (env.tuples.hashable pkt.tuple) st.streams)) [
        | inr (p, e) ↦ rw (e, follow_tcp) (follow_at-Moves env hdr pkt p 1 false st).extends
        | inl e ↦ elim (Option-cases (lookup (env.tuples.rev_hashable pkt.tuple) st.streams)) [
          | inr (p, e') ↦ rw (e, e', follow_tcp) (follow_at-Moves env hdr pkt p 0 false st).extends
          | inl e' ↦
              rw (e, e', follow_tcp)
                (elim (Bool-cases (decide_protocol env.port_map pkt.tuple == 0)) [
                  | inl t ↦ rw t (Extends-refl st.objects)
                  | inr f ↦ rw f (
                      Extends-trans (create-Extends env pkt _ st)
                        (follow_at-Moves env hdr pkt (length st.objects) 1 true _).extends)
                ])
        ]
      ]

  unfoldable pub follow_all : Env W D → List (TcpHeader × Packet) → TcpState W D → TcpState W D
  follow_all env [] st = st
  follow_all env ((hdr, pkt) ∷ rest) st = follow_all env rest (follow_tcp env hdr pkt st)

  follow_all-Extends :
      (env : Env W D) (packets : List (TcpHeader × Packet)) (st : TcpState W D)
      → Extends st.objects (follow_all env packets st).objects
  unfolding follow_all
  follow_all-Extends env [] st = Extends-refl st.objects
  follow_all-Extends env ((hdr, pkt) ∷ rest) st =
      Extends-trans (follow_tcp-Extends env hdr pkt st)
        (follow_all-Extends env rest (follow_tcp env hdr pkt st))

  -- Once a stream was armed, whatever packets follow, the firing of its timer removes the key of its
  -- tuple from the table, also where the stream was dropped since and the key points to a newer
  -- stream.
  pub timer_fires_stale :
      (env : Env W D) (packets : List (TcpHeader × Packet)) (p : ℕ) (s : TcpStream D)
      (st : TcpState W D)
      → get_elem? st.objects p ≡ some s
      → s.timer ≡ true
      → lookup (env.tuples.hashable s.tuple) (timer_fires env p (follow_all env packets st)).streams
        ≡ none
  unfolding timer_fires expire
  timer_fires_stale env packets p s st e armed =
      let (s', e', kept) = (follow_all-Extends env packets st).keeps p s e in
      let st' = follow_all env packets st in
      let key = env.tuples.hashable s.tuple in
      rw (e', timer_fires)
        (rw (kept.stays_armed armed, kept.same_tuple)
          (lookup-delete key key st'.streams ∙ rw (beq_refl key)))
