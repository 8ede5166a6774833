-- ===== src/Switch/Replication.antt =====
-- switch.cc, `try_route_event`: which ports get an event, and that a write goes to every pool or none.
use mathlib.Core.Option
use cscore_sstelem.Prelude.{
  ℕ, zero, suc, ◌+◌, ◌≡◌, refl, ◌∙◌, ap, List, [], ◌∷◌, ◌++◌, true, some, length, get_elem?, arith,
  ◌==◌, if◌then◌else◌,
}
use native.Mathlib.Nat.{zero-add}
use cscore_sstelem.Double.{Double}
use cscore_sstelem.Packet.{CsEvent}
use cscore_sstelem.Packet.Control.{is_write_request}
use cscore_sstelem.FabricPort
use cscore_sstelem.FabricPort.{FabricPort}
use cscore_sstelem.Switch.{
  Switch, can_send_at, send_at, all_can_send, send_each, clone_event_with_dst, port_id,
  replicate_write, route_to_picked, pick_round_robin, pick_pool_index, route_to_pool, route_to_node,
}

module _ {D : Type 0} ⦃d : Double D⦄ where
  -- The port that gets an event has it last in its egress queue; the others are as they were.
  get_elem?-send_at :
      (ports : List (FabricPort D)) (i j : ℕ) (ev : CsEvent)
      → get_elem? (send_at ports i ev) j ≡ (
          if i == j
          then Option.map (λ p. (FabricPort.send p ev).0) (get_elem? ports j)
          else get_elem? ports j)
  unfolding send_at
  get_elem?-send_at [] i j ev = ground arith
  get_elem?-send_at (p ∷ ps) zero zero ev = refl
  get_elem?-send_at (p ∷ ps) zero (suc j) ev = ground arith
  get_elem?-send_at (p ∷ ps) (suc i) zero ev = ground arith
  get_elem?-send_at (p ∷ ps) (suc i) (suc j) ev = ground (arith, get_elem?-send_at ps i j ev)

  get_elem?-send_each :
      (event : ℕ → CsEvent) (i j : ℕ) (ports : List (FabricPort D))
      → get_elem? (send_each event i ports) j
        ≡ Option.map (λ p. (FabricPort.send p (event (i + j))).0) (get_elem? ports j)
  unfolding send_each
  get_elem?-send_each event i j [] = refl
  get_elem?-send_each event i zero (p ∷ ps) = let e : i + 0 ≡ i = omega arith in rw e
  get_elem?-send_each event i (suc j) (p ∷ ps) =
      let e : i + suc j ≡ i + 1 + j = omega arith in rw (e, get_elem?-send_each event (i + 1) j ps)

  all_can_send-at :
      (ports : List (FabricPort D)) (j : ℕ) {p : FabricPort D}
      → all_can_send ports ≡ true
      → get_elem? ports j ≡ some p
      → FabricPort.can_send p ≡ true
  unfolding all_can_send
  all_can_send-at [] j h e = cc
  all_can_send-at (q ∷ ps) zero h e = ground arith
  all_can_send-at (q ∷ ps) (suc j) {p} h e = all_can_send-at ps j (ground arith) e

  -- The port with one more event at the end of its egress queue.
  abbrev pub enqueued : FabricPort D → CsEvent → FabricPort D
  enqueued p ev = record p { egress_queue = p.egress_queue ++ (ev ∷ []) }

  send-taken :
      (p : FabricPort D) (ev : CsEvent)
      → FabricPort.can_send p ≡ true
      → (FabricPort.send p ev).0 ≡ enqueued p ev
  unfolding FabricPort.send
  send-taken p ev h = rw h

  map-send-taken :
      (ports : List (FabricPort D)) (j : ℕ) (ev : CsEvent)
      → all_can_send ports ≡ true
      → Option.map (λ p. (FabricPort.send p ev).0) (get_elem? ports j)
        ≡ Option.map (λ p. enqueued p ev) (get_elem? ports j)
  unfolding all_can_send
  map-send-taken [] j ev h = refl
  map-send-taken (p ∷ ps) zero ev h = ap some (send-taken p ev (ground arith))
  map-send-taken (p ∷ ps) (suc j) ev h = map-send-taken ps j ev (ground arith)

  -- Where the switch replicates, a write to a pool is taken when every pool port has room: every pool
  -- port `j` gets a copy that names it, behind the events that wait there already, the node ports stay
  -- as they were, and the count of copies grows by the number of pool ports.
  pub replicated_to_all :
      (sw : Switch D) (ev : CsEvent) (j : ℕ)
      → sw.replicate_writes ≡ true
      → is_write_request ev ≡ true
      → all_can_send sw.pool_ports ≡ true
      → let (sw', taken) = route_to_pool sw ev in
        (taken ≡ true)
        × (sw'.replicated_count ≡ sw.replicated_count + length sw.pool_ports)
        × (sw'.node_ports ≡ sw.node_ports)
        × (get_elem? sw'.pool_ports j
            ≡ Option.map
                (λ p. enqueued p (clone_event_with_dst ev (port_id sw.pool_node_id_base j)))
                (get_elem? sw.pool_ports j))
  unfolding route_to_pool replicate_write
  replicated_to_all sw ev j replicates write room =
      let copy = λ (i : ℕ). clone_event_with_dst ev (port_id sw.pool_node_id_base i) in
      let to_all = get_elem?-send_each copy 0 j sw.pool_ports in
      let taken = map-send-taken sw.pool_ports j (copy j) room in
      simp (replicates, write, room) (refl, refl, refl, rw zero-add at to_all ∙ taken)

  -- An event for a node is taken when that node's port has room: it waits last at that port, and all
  -- other ports stay as they were.
  pub routed_to_node :
      (sw : Switch D) (ev : CsEvent) (dst j : ℕ)
      → can_send_at sw.node_ports dst ≡ true
      → let (sw', taken) = route_to_node sw dst ev in
        (taken ≡ true)
        × (sw'.pool_ports ≡ sw.pool_ports)
        × (get_elem? sw'.node_ports j ≡ (
            if dst == j
            then Option.map (λ p. (FabricPort.send p ev).0) (get_elem? sw.node_ports j)
            else get_elem? sw.node_ports j))
  unfolding route_to_node
  routed_to_node sw ev dst j room =
      rw (room, route_to_node) (refl, refl, get_elem?-send_at sw.node_ports dst j ev)

  pick_pool_index-ports :
      (sw : Switch D)
      → let (sw', _) = pick_pool_index sw in
        (sw'.pool_ports ≡ sw.pool_ports) × (sw'.node_ports ≡ sw.node_ports)
  unfolding pick_pool_index pick_round_robin
  pick_pool_index-ports sw = ground arith

  route_to_picked-taken :
      (sw : Switch D) (ev : CsEvent)
      → (route_to_picked sw ev).1 ≡ true
      → let (sw', _) = route_to_picked sw ev in
        let (picked, pick) = pick_pool_index sw in
        (can_send_at sw.pool_ports pick ≡ true)
        × (sw'.node_ports ≡ picked.node_ports)
        × (sw'.pool_ports
            ≡ send_at picked.pool_ports pick
                (clone_event_with_dst ev (port_id sw.pool_node_id_base pick)))
  unfolding route_to_picked
  route_to_picked-taken sw ev taken = ground arith

  -- An event that goes to one pool and is taken goes to the pool that the policy picks: that port has
  -- room, gets the event with its own id for the destination, and all other ports stay as they were.
  pub routed_to_picked :
      (sw : Switch D) (ev : CsEvent) (j : ℕ)
      → (route_to_picked sw ev).1 ≡ true
      → let (sw', _) = route_to_picked sw ev in
        let (_, pick) = pick_pool_index sw in
        (can_send_at sw.pool_ports pick ≡ true)
        × (sw'.node_ports ≡ sw.node_ports)
        × (get_elem? sw'.pool_ports j ≡ (
            if pick == j
            then Option.map
                (λ p.
                  (FabricPort.send p
                    (clone_event_with_dst ev (port_id sw.pool_node_id_base pick))).0)
                (get_elem? sw.pool_ports j)
            else get_elem? sw.pool_ports j))
  routed_to_picked sw ev j taken =
      let (picked, pick) = pick_pool_index sw in
      let named = clone_event_with_dst ev (port_id sw.pool_node_id_base pick) in
      let frame = pick_pool_index-ports sw in
      let h = route_to_picked-taken sw ev taken in
      let ports = h.2 ∙ ap (λ ps. send_at ps pick named) frame.0 in
      (h.0, h.1 ∙ frame.1, rw ports (get_elem?-send_at sw.pool_ports pick j named))
