-- ===== src/Switch/Routing.antt =====
-- switch.cc, `try_route_event`: which events are errors, and what a refused event changes.
use cscore_sstelem.Prelude.{
  ℕ, zero, suc, ◌+◌, ◌-◌, ◌%◌, ◌≤◌, ◌<◌, ◌≡◌, ◌↔◌, ◌⊎◌, inl, inr, refl, List, [], ◌∷◌, true, false,
  Option, none, some, length, arith,
}
use cscore_sstelem.Prelude.Result.{ok, is_ok}
use cscore_sstelem.Double.{Double}
use cscore_sstelem.Packet.{CsEvent, word}
use cscore_sstelem.Packet.Control.{is_reset_event}
use cscore_sstelem.FabricPort.{FabricPort}
use cscore_sstelem.Switch.{
  Switch, can_send_at, pick_loop, pick_round_robin, pick_pool_index, route_to_picked, route_to_pool,
  route_to_node, try_route_event,
}
use cscore_sstelem.Switch.Pick.{Found, nowhere, at, pick_loop-Found}

module _ {D : Type 0} ⦃d : Double D⦄ where
  -- There are as many ports as the counts say.
  pub record IsWellFormed (sw : Switch D) : Type 0 where
    pub nodes : length sw.node_ports ≡ sw.num_nodes
    pub pools : length sw.pool_ports ≡ sw.num_pools

  -- An event that the switch knows how to route: it has a header, and it is a reset event or goes to a
  -- node or a pool that the switch has a port for.
  abbrev pub IsRoutable : Switch D → CsEvent → Type 0
  IsRoutable sw ev =
      (2 ≤ length ev.payload)
      × ((is_reset_event ev ≡ true)
          ⊎ ((word ev 1 < sw.num_nodes)
              ⊎ ((sw.pool_node_id_base ≤ word ev 1)
                  × (word ev 1 - sw.pool_node_id_base < sw.num_pools))))

  -- A switch with as many ports as its counts say raises no error for an event exactly when the event
  -- has a source and a destination, and is a reset event or goes to one of its nodes or pools.
  pub try_route_event-ok_iff :
      (sw : Switch D) (ev : CsEvent)
      → IsWellFormed sw
      → (is_ok (try_route_event sw ev) ≡ true) ↔ IsRoutable sw ev
  unfolding try_route_event
  try_route_event-ok_iff sw ev w = (λ h. ground arith, λ h. ground arith)

  pick_round_robin-can_send :
      (sw : Switch D)
      → let (sw', pick) = pick_round_robin sw in
        ((can_send_at sw.pool_ports pick ≡ true)) ⊎ ((sw' ≡ sw) × (pick ≡ length sw.pool_ports))
  unfolding pick_round_robin
  pick_round_robin-can_send sw =
      go (pick_loop sw.pool_ports sw.rr_pool_idx (length sw.pool_ports) 0)
        (pick_loop-Found sw.pool_ports sw.rr_pool_idx (length sw.pool_ports) 0)
    where
      go :
          (o : Option ℕ)
          → Found sw.pool_ports sw.rr_pool_idx 0 (length sw.pool_ports) o
          → let r : Switch D × ℕ = elim o [
            | none ↦ (sw, length sw.pool_ports)
            | some idx ↦ (record sw { rr_pool_idx = (idx + 1) % length sw.pool_ports }, idx)
          ] in
            (can_send_at sw.pool_ports r.1 ≡ true) ⊎ ((r.0 ≡ sw) × (r.1 ≡ length sw.pool_ports))
      go _ (nowhere all) = inr (refl, refl)
      go _ (at k h h' can before) = inl can

  pick_pool_index-can_send :
      (sw : Switch D)
      → let (sw', pick) = pick_pool_index sw in (can_send_at sw.pool_ports pick ≡ true) ⊎ (sw' ≡ sw)
  unfolding pick_pool_index
  pick_pool_index-can_send sw = ground (arith, pick_round_robin-can_send sw)

  can_send_at-lt :
      (ports : List (FabricPort D)) (i : ℕ) → can_send_at ports i ≡ true → i < length ports
  unfolding can_send_at
  can_send_at-lt [] i e = cc
  can_send_at-lt (p ∷ ps) zero e = omega arith
  can_send_at-lt (p ∷ ps) (suc i) e = omega (arith, can_send_at-lt ps i e)

  route_to_picked-refused :
      (sw : Switch D) (ev : CsEvent)
      → (route_to_picked sw ev).1 ≡ false
      → (route_to_picked sw ev).0 ≡ sw
  unfolding route_to_picked
  route_to_picked-refused sw ev e =
      ground
        (arith, pick_pool_index-can_send sw, can_send_at-lt sw.pool_ports (pick_pool_index sw).1)

  -- An event that `try_route_event` refuses leaves the switch as it was, with its round-robin index.
  pub try_route_event-refused :
      (sw sw' : Switch D) (ev : CsEvent) → try_route_event sw ev ≡ ok (sw', false) → sw' ≡ sw
  unfolding try_route_event route_to_node route_to_pool
  try_route_event-refused sw sw' ev e = ground (arith, route_to_picked-refused sw ev)
