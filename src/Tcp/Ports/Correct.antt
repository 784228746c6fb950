-- ===== src/Tcp/Ports/Correct.antt =====
-- `buildPortsMap` gives each configured port to its one plugin, or shows two that share a port.
use packetbeat.Base.{ℕ, ◌%◌, List, [], ◌∷◌, some, ◌≡◌, ◌≢◌, ◌⊎◌, ◌↔◌, inl, inr, refl, arith}
use packetbeat.Base.GoMap.{lookup, put, nat_eq, lookup-put}
use packetbeat.Protos.{Plugin, Protocols}
use packetbeat.Tcp.Ports.{
  PortMap, PortResult, ok, duplicate_port, add_ports, add_plugins, build_ports_map,
}

-- The port is among the configured ones, as a uint16.
abbrev pub HasPort : ℕ → List ℕ → Type 0
HasPort q [] = ⊥
HasPort q (port ∷ ports) = (port % 65536 ≡ q) ⊎ HasPort q ports

-- The protocol `r` is registered with the port `q`.
abbrev pub Listens : {W D : Type 0} → ℕ → ℕ → Protocols W D → Type 0
Listens r q [] = ⊥
Listens r q ((proto, plugin) ∷ plugins) =
    ((proto ≡ r) × HasPort q plugin.get_ports) ⊎ Listens r q plugins

-- An entry is never overwritten.
add_ports_keep :
    (proto : ℕ) (ports : List ℕ) (res : PortMap) (res' : PortMap) (r q : ℕ)
    → add_ports proto ports res ≡ ok res'
    → lookup q res ≡ some r
    → lookup q res' ≡ some r
unfolding add_ports
add_ports_keep proto [] res res' r q e h = ground arith
add_ports_keep proto (port ∷ ports) res res' r q e h = ground (
  arith,
  lookup-put (port % 65536) q proto res,
  add_ports_keep proto ports res res' r q,
  add_ports_keep proto ports (put (port % 65536) proto res) res' r q,
)

add_ports_sound :
    (proto : ℕ) (ports : List ℕ) (res : PortMap) (res' : PortMap) (r q : ℕ)
    → add_ports proto ports res ≡ ok res'
    → lookup q res' ≡ some r
    → (lookup q res ≡ some r) ⊎ ((proto ≡ r) × HasPort q ports)
unfolding add_ports
add_ports_sound proto [] res res' r q e h = ground arith
add_ports_sound proto (port ∷ ports) res res' r q e h = ground (
  arith,
  lookup-put (port % 65536) q proto res,
  add_ports_sound proto ports res res' r q,
  add_ports_sound proto ports (put (port % 65536) proto res) res' r q,
)

add_ports_complete :
    (proto : ℕ) (ports : List ℕ) (res : PortMap) (res' : PortMap) (q : ℕ)
    → add_ports proto ports res ≡ ok res'
    → HasPort q ports
    → lookup q res' ≡ some proto
unfolding add_ports
add_ports_complete proto [] res res' q e h = elim h [ ]
add_ports_complete proto (port ∷ ports) res res' q e h = ground (
  arith,
  lookup-put (port % 65536) q proto res,
  add_ports_complete proto ports res res' q,
  add_ports_complete proto ports (put (port % 65536) proto res) res' q,
  add_ports_keep proto ports res res' proto q,
  add_ports_keep proto ports (put (port % 65536) proto res) res' proto q,
)

-- The first port that is refused belongs to another protocol, in the map or listed before.
add_ports_conflict :
    (proto : ℕ) (ports : List ℕ) (res : PortMap) (port old new : ℕ)
    → add_ports proto ports res ≡ duplicate_port port old new
    → (new ≡ proto)
      × (old ≢ proto)
      × HasPort (port % 65536) ports
      × (lookup (port % 65536) res ≡ some old)
unfolding add_ports
add_ports_conflict proto [] res port old new e = cc
add_ports_conflict proto (p ∷ ports) res port old new e = ground (
  arith,
  lookup-put (p % 65536) (port % 65536) proto res,
  add_ports_conflict proto ports res port old new,
  add_ports_conflict proto ports (put (p % 65536) proto res) port old new,
)

PortResult-cases :
    (o : PortResult)
    → ((m : PortMap) × (o ≡ ok m))
      ⊎ ((port : ℕ) × (old : ℕ) × (new : ℕ) × (o ≡ duplicate_port port old new))
PortResult-cases (ok m) = inl (m, refl)
PortResult-cases (duplicate_port port old new) = inr (port, old, new, refl)

module _ {W D : Type 0} where
  -- A successful visit of a plugin and the rest goes through the map after the plugin.
  add_plugins-eq-ok :
      (proto : ℕ) (plugin : Plugin W D) (plugins : Protocols W D) (res m : PortMap)
      → add_plugins ((proto, plugin) ∷ plugins) res ≡ ok m
      → (res' : PortMap) × (add_ports proto plugin.get_ports res ≡ ok res')
        × (add_plugins plugins res' ≡ ok m)
  unfolding add_plugins
  add_plugins-eq-ok proto plugin plugins res m e =
      elim (PortResult-cases (add_ports proto plugin.get_ports res)) [
        | inl (res', a) ↦ (res', a, ground arith)
        | inr (port, old, new, a) ↦ absurd (ground arith)
      ]

  add_plugins_keep :
      (plugins : Protocols W D) (res m : PortMap) (r q : ℕ)
      → add_plugins plugins res ≡ ok m
      → lookup q res ≡ some r
      → lookup q m ≡ some r
  add_plugins_keep [] res m r q e h = unfold add_plugins in ground arith
  add_plugins_keep ((proto, plugin) ∷ plugins) res m r q e h =
      let (res', a, b) = add_plugins-eq-ok proto plugin plugins res m e in
      add_plugins_keep plugins res' m r q b (add_ports_keep proto plugin.get_ports res res' r q a h)

  add_plugins_sound :
      (plugins : Protocols W D) (res m : PortMap) (r q : ℕ)
      → add_plugins plugins res ≡ ok m
      → lookup q m ≡ some r
      → (lookup q res ≡ some r) ⊎ Listens r q plugins
  add_plugins_sound [] res m r q e h = unfold add_plugins in ground arith
  add_plugins_sound ((proto, plugin) ∷ plugins) res m r q e h =
      let (res', a, b) = add_plugins-eq-ok proto plugin plugins res m e in
      ground (
        arith,
        add_plugins_sound plugins res' m r q b h,
        add_ports_sound proto plugin.get_ports res res' r q a,
      )

  add_plugins_complete :
      (plugins : Protocols W D) (res m : PortMap) (r q : ℕ)
      → add_plugins plugins res ≡ ok m
      → Listens r q plugins
      → lookup q m ≡ some r
  add_plugins_complete [] res m r q e h = elim h [ ]
  add_plugins_complete ((proto, plugin) ∷ plugins) res m r q e h =
      let (res', a, b) = add_plugins-eq-ok proto plugin plugins res m e in
      elim h [
        | inl (same, has) ↦
            add_plugins_keep plugins res' m r q b
              (rw (← same) (add_ports_complete proto plugin.get_ports res res' q a has))
        | inr later ↦ add_plugins_complete plugins res' m r q b later
      ]

  add_plugins_conflict :
      (plugins : Protocols W D) (res : PortMap) (port old new : ℕ)
      → add_plugins plugins res ≡ duplicate_port port old new
      → (old ≢ new)
        × Listens new (port % 65536) plugins
        × ((lookup (port % 65536) res ≡ some old) ⊎ Listens old (port % 65536) plugins)
  unfolding add_plugins
  add_plugins_conflict [] res port old new e = cc
  add_plugins_conflict ((proto, plugin) ∷ plugins) res port old new e =
      elim (PortResult-cases (add_ports proto plugin.get_ports res)) [
        | inl (res', a) ↦ ground (
          arith,
          add_plugins_conflict plugins res' port old new,
          add_ports_sound proto plugin.get_ports res res' old (port % 65536) a,
        )
        | inr (port', old', new', a) ↦
            ground (arith, add_ports_conflict proto plugin.get_ports res port' old' new' a)
      ]

  -- Where the map of ports is built, a port leads to a protocol exactly if that protocol is
  -- configured with the port (as a uint16).
  pub build_ports_map_ok :
      (plugins : Protocols W D) (m : PortMap)
      → build_ports_map plugins ≡ ok m
      → (r q : ℕ) → (lookup q m ≡ some r) ↔ Listens r q plugins
  unfolding build_ports_map
  build_ports_map_ok plugins m e r q = (
    λ h. elim (add_plugins_sound plugins [] m r q e h) [
      | inl none_is_some ↦ absurd (unfold lookup in cc)
      | inr l ↦ l
    ],
    add_plugins_complete plugins [] m r q e,
  )

  -- Where the map of ports is refused, the error names a port, as a uint16, on which both of the two different
  -- protocols that it names are configured.
  pub build_ports_map_conflict :
      (plugins : Protocols W D) (port old new : ℕ)
      → build_ports_map plugins ≡ duplicate_port port old new
      → (old ≢ new) × Listens old (port % 65536) plugins × Listens new (port % 65536) plugins
  unfolding build_ports_map lookup
  build_ports_map_conflict plugins port old new e =
      ground (arith, add_plugins_conflict plugins [] port old new e)
