-- ===== src/Tcp/Objects.antt =====
-- protos/tcp/tcp.go: what following packets may do to the streams behind the pointers. A stream
-- keeps its tuple and its protocol, and an armed timer stays armed until it fires.
use packetbeat.Base.{
  ℕ, ◌+◌, ◌++◌, ◌≡◌, refl, ◌∙◌, ap, Bool, true, false, List, none, some, length, get_elem?, set,
  get_elem?-set_self, get_elem?-set_ne, get_elem?-lt, get_elem?-append_left, inl, inr,
  if◌then◌else◌, arith, Option-cases, ltb,
}
use packetbeat.Base.GoMap.{lookup, lookup-delete, bytes_instance}
use packetbeat.Base.Text.{Bytes}
use native.Mathlib.Decide.{ℕ_discrete}
use packetbeat.Protos
use packetbeat.Protos.{Packet, Call, returns, panics, Plugin}
use packetbeat.Tcp.{
  u32, TcpHeader, TcpStream, TcpState, Env, write, finish_call, expire, received_fin, add_packet,
  gap_in_stream, drop_stream, follow_segment, follow_at, with_last_seq,
}

module _ {D : Type 0} where
  -- What a stream keeps.
  pub record Keeps (s s' : TcpStream D) : Type 0 where
    pub same_tuple : s'.tuple ≡ s.tuple
    pub same_protocol : s'.protocol ≡ s.protocol
    pub stays_armed : s.timer ≡ true → s'.timer ≡ true

  pub Keeps-refl : (s : TcpStream D) → Keeps s s
  Keeps-refl s = record { same_tuple = refl; same_protocol = refl; stays_armed = λ h. h }

  pub Keeps-trans : {a b c : TcpStream D} → Keeps a b → Keeps b c → Keeps a c
  Keeps-trans h k = record {
    same_tuple = k.same_tuple ∙ h.same_tuple;
    same_protocol = k.same_protocol ∙ h.same_protocol;
    stays_armed = λ t. k.stays_armed (h.stays_armed t);
  }

  -- Every stream of the first list is kept in the second, under its pointer.
  pub record Extends (xs ys : List (TcpStream D)) : Type 0 where
    pub keeps :
        (p : ℕ) (s : TcpStream D)
        → get_elem? xs p ≡ some s
        → (s' : TcpStream D) × (get_elem? ys p ≡ some s') × Keeps s s'

  pub Extends-refl : (xs : List (TcpStream D)) → Extends xs xs
  Extends-refl xs = record { keeps = λ p s h. (s, h, Keeps-refl s) }

  pub Extends-trans :
      {xs ys zs : List (TcpStream D)} → Extends xs ys → Extends ys zs → Extends xs zs
  Extends-trans h k = record {
    keeps = λ p s e.
        let (s', e', a) = h.keeps p s e in
        let (s'', e'', b) = k.keeps p s' e' in (s'', e'', Keeps-trans a b);
  }

  set-Keeps :
      (xs : List (TcpStream D)) (p : ℕ) (s s' : TcpStream D)
      → get_elem? xs p ≡ some s
      → Keeps s s'
      → (q : ℕ) (t : TcpStream D) → get_elem? xs q ≡ some t
      → (t' : TcpStream D) × (get_elem? (set xs p s') q ≡ some t') × Keeps t t'
  set-Keeps xs p s s' e k q t h = elim (ℕ_discrete p q) [
    | yes same ↦
        let t_is : t ≡ s = ground (arith, ap (get_elem? xs) same) in
        (s', rw (← same) (get_elem?-set_self xs p s' (get_elem?-lt xs p e)), rw t_is k)
    | no differ ↦ (t, get_elem?-set_ne xs s' differ ∙ h, Keeps-refl t)
  ]

  pub Extends-set :
      (xs : List (TcpStream D)) (p : ℕ) (s s' : TcpStream D)
      → get_elem? xs p ≡ some s
      → Keeps s s'
      → Extends xs (set xs p s')
  Extends-set xs p s s' e k = record { keeps = set-Keeps xs p s s' e k }

  pub Extends-append : (xs ys : List (TcpStream D)) → Extends xs (xs ++ ys)
  Extends-append xs ys = record {
    keeps = λ p s h. (s, get_elem?-append_left xs ys p h, Keeps-refl s);
  }

module _ {W D : Type 0} where
  -- No stream is lost from the store, and no key is added to the map.
  pub record Moves (st st' : TcpState W D) : Type 0 where
    pub extends : Extends st.objects st'.objects
    pub fewer : (k : Bytes) (p : ℕ) → lookup k st'.streams ≡ some p → lookup k st.streams ≡ some p

  pub Moves-refl : (st : TcpState W D) → Moves st st
  Moves-refl st = record { extends = Extends-refl st.objects; fewer = λ k p h. h }

  pub Moves-trans : {a b c : TcpState W D} → Moves a b → Moves b c → Moves a c
  Moves-trans h k = record {
    extends = Extends-trans h.extends k.extends;
    fewer = λ x p e. h.fewer x p (k.fewer x p e);
  }

  -- A write through a pointer, of a stream that keeps what must be kept.
  pub write-Moves :
      (p : ℕ) (s s' : TcpStream D) (st : TcpState W D)
      → get_elem? st.objects p ≡ some s
      → Keeps s s'
      → Moves st (write p s' st)
  write-Moves p s s' st e k = record {
    extends = Extends-set st.objects p s s' e k;
    fewer = λ x q h. h;
  }

  finish_call-Moves :
      (p : ℕ) (s s' : TcpStream D) (st : TcpState W D) (r : W × Call D)
      → get_elem? st.objects p ≡ some s
      → Keeps s s'
      → Moves st (finish_call p s' st r).0
  unfolding finish_call
  finish_call-Moves p s s' st (w, returns d) e k =
      let m =
        write-Moves p s (record s' { payload = d }) st e
          (record {
            same_tuple = k.same_tuple;
            same_protocol = k.same_protocol;
            stays_armed = k.stays_armed;
          }) in
      record { extends = m.extends; fewer = m.fewer }
  finish_call-Moves p s s' st (w, panics) e k =
      let m = Moves-refl st in record { extends = m.extends; fewer = m.fewer }

  Moves-if :
      {st x y : TcpState W D} (b : Bool) → Moves st x → Moves st y → Moves st (if b then x else y)
  Moves-if true h k = h
  Moves-if false h k = k

  received_fin-Moves :
      (mod_ : Plugin W D) (hdr : TcpHeader) (p dir : ℕ) (st : TcpState W D)
      → Moves st (received_fin mod_ hdr p dir st)
  unfolding received_fin
  received_fin-Moves mod_ hdr p dir st = elim (Option-cases (get_elem? st.objects p)) [
    | inl e ↦ rw (e, received_fin) (Moves-refl st)
    | inr (s, e) ↦
        rw (e, received_fin)
          (Moves-if hdr.fin (finish_call-Moves p s s st _ e (Keeps-refl s)) (Moves-refl st))
  ]

  expire-Moves :
      (env : Env W D) (p : ℕ) (s : TcpStream D) (st : TcpState W D)
      → get_elem? st.objects p ≡ some s
      → Moves st (expire env p s st)
  unfolding expire
  expire-Moves env p s st e = record {
    extends =
        Extends-set st.objects p s (record s { payload = none }) e
          (record { same_tuple = refl; same_protocol = refl; stays_armed = λ h. h });
    fewer = λ k q h. ground (arith, lookup-delete (env.tuples.hashable s.tuple) k st.streams);
  }

  add_packet-Moves :
      (env : Env W D) (pkt : Packet) (hdr : TcpHeader) (p dir : ℕ) (s : TcpStream D)
      (st : TcpState W D)
      → get_elem? st.objects p ≡ some s
      → Moves st (add_packet env pkt hdr p dir s st)
  unfolding add_packet
  add_packet-Moves env pkt hdr p dir s st e =
      elim (Option-cases (Protos.get env.protos s.protocol)) [
        | inl n ↦ rw (n, add_packet) first
        | inr (mod_, m) ↦
            rw (m, add_packet)
              (Moves-if (ltb 0 (length pkt.payload))
                (Moves-if
                  (finish_call p armed st' (mod_.parse pkt s.tcptuple dir s.payload st.world)).1
                  (Moves-trans first
                    (Moves-trans (parsed mod_) (received_fin-Moves mod_ hdr p dir _)))
                  (Moves-trans first (parsed mod_)))
                (Moves-trans first (received_fin-Moves mod_ hdr p dir st')))
      ]
    where
      armed : TcpStream D
      armed = record s { timer = true }

      st' : TcpState W D
      st' = write p armed st

      first : Moves st st'
      first =
          write-Moves p s armed st e
            (record { same_tuple = refl; same_protocol = refl; stays_armed = λ _. refl })

      parsed :
          (mod_ : Plugin W D)
          → Moves st' (finish_call p armed st' (mod_.parse pkt s.tcptuple dir s.payload st.world)).0
      parsed mod_ =
          finish_call-Moves p armed armed st' _
            (get_elem?-set_self st.objects p armed (get_elem?-lt st.objects p e)) (Keeps-refl armed)

  gap_in_stream-Moves :
      (env : Env W D) (p dir : ℕ) (s : TcpStream D) (st : TcpState W D)
      → get_elem? st.objects p ≡ some s
      → Moves st (gap_in_stream env p dir s st).0
  unfolding gap_in_stream
  gap_in_stream-Moves env p dir s st e = elim (Option-cases (Protos.get env.protos s.protocol)) [
    | inl n ↦ rw (n, gap_in_stream) (Moves-refl st)
    | inr (mod_, m) ↦ rw (m, gap_in_stream) (finish_call-Moves p s s st _ e (Keeps-refl s))
  ]

  pub drop_stream-Moves :
      (env : Env W D) (p dir : ℕ) (s : TcpStream D) (st : TcpState W D)
      → get_elem? st.objects p ≡ some s
      → Moves st (drop_stream env p dir s st)
  unfolding drop_stream
  drop_stream-Moves env p dir s st e =
      let m = gap_in_stream-Moves env p dir s st e in
      let (s', e', _) = m.extends.keeps p s e in
      rw (e', drop_stream)
        (Moves-if (gap_in_stream env p dir s st).1 (Moves-trans m (expire-Moves env p s' _ e')) m)

  pub follow_segment-Moves :
      (env : Env W D) (hdr : TcpHeader) (pkt : Packet) (p dir : ℕ) (created : Bool)
      (s : TcpStream D) (st : TcpState W D)
      → get_elem? st.objects p ≡ some s
      → Moves st (follow_segment env hdr pkt p dir created s st)
  unfolding follow_segment
  follow_segment-Moves env hdr pkt p dir created s st e = Moves-if _ (Moves-refl st) (
      Moves-if _ (drop_stream-Moves env p dir s st e) (
        Moves-trans (write-Moves p s s' st e keeps) (
          add_packet-Moves env pkt hdr p dir s' _
            (get_elem?-set_self st.objects p s' (get_elem?-lt st.objects p e)))))
    where
      s' : TcpStream D
      s' = with_last_seq dir (u32 (hdr.seq + u32 (length pkt.payload))) s

      keeps : Keeps s s'
      keeps = ground arith

  pub follow_at-Moves :
      (env : Env W D) (hdr : TcpHeader) (pkt : Packet) (p dir : ℕ) (created : Bool)
      (st : TcpState W D)
      → Moves st (follow_at env hdr pkt p dir created st)
  unfolding follow_at
  follow_at-Moves env hdr pkt p dir created st = elim (Option-cases (get_elem? st.objects p)) [
    | inl e ↦ rw (e, follow_at) (Moves-refl st)
    | inr (s, e) ↦ rw (e, follow_at) (follow_segment-Moves env hdr pkt p dir created s st e)
  ]
