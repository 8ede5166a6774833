-- ===== src/MemoryPool/Tags.antt =====
-- cxl_mempool.cc: each request that wants a response gets a tag of its own, and its response goes back to
-- where it came from.
use cscore_sstelem.Prelude.{
  ℕ, ◌+◌, ◌%◌, ◌^◌, ◌≤◌, ◌<◌, ◌≡◌, refl, sym, subst, ap, ◌∙◌, List, [], ◌∷◌, true, false, none,
  some, ◌==◌, arith, if◌then◌else◌,
}
use cscore_sstelem.Prelude.Result.{ok}
use cscore_sstelem.Double.{Double}
use cscore_sstelem.Packet.{SstRequest, word, max_u32}
use cscore_sstelem.Packet.Convert.{convert_response_to_event, response_src, response_dst}
use cscore_sstelem.Channel.{Response}
use cscore_sstelem.FabricPort
use cscore_sstelem.FabricPort.{FabricPort}
use cscore_sstelem.MemoryPool.{MemoryPool, OutstandingRequest, PoolPort, set_port}
use cscore_sstelem.MemoryPool.Service.{
  find_pending, erase_pending, route_of, response_event, enqueue_mem_request, select_egress_port,
  send_on, try_send_response,
}

-- All pending tags are below `bound`.
abbrev pub TagsBelow : ℕ → List (ℕ × OutstandingRequest) → Type 0
TagsBelow bound [] = Unit {0}
TagsBelow bound ((t, r) ∷ rs) = (t < bound) × TagsBelow bound rs

TagsBelow-weaken :
    (a b : ℕ) (rs : List (ℕ × OutstandingRequest)) → a ≤ b → TagsBelow a rs → TagsBelow b rs
TagsBelow-weaken a b [] h t = tt
TagsBelow-weaken a b ((t, r) ∷ rs) h below = (omega arith, TagsBelow-weaken a b rs h below.1)

find_pending-lt :
    (bound : ℕ) (rs : List (ℕ × OutstandingRequest)) (t : ℕ) (r : OutstandingRequest)
    → TagsBelow bound rs
    → find_pending rs t ≡ some r
    → t < bound
unfolding find_pending
find_pending-lt bound [] t r below h = absurd cc
find_pending-lt bound ((u, s) ∷ rs) t r below h =
    ground (arith, find_pending-lt bound rs t r below.1)

find_pending-erase_pending :
    (rs : List (ℕ × OutstandingRequest)) (tag t : ℕ)
    → find_pending (erase_pending rs tag) t ≡ (if tag == t then none else find_pending rs t)
unfolding find_pending erase_pending
find_pending-erase_pending [] tag t = ground arith
find_pending-erase_pending ((u, s) ∷ rs) tag t = ground (arith, find_pending-erase_pending rs tag t)

response_event-header :
    (id : ℕ) (route : OutstandingRequest) (response : Response)
    → id < max_u32
    → route.src_node < max_u32
    → (word (response_event id route response) 0 ≡ id)
      × (word (response_event id route response) 1 ≡ route.src_node)
unfolding response_event convert_response_to_event response_src response_dst
response_event-header id route response h h' = ground arith

module _ {D : Type 0} ⦃d : Double D⦄ where
  -- Where all pending tags are below the next one, and that does not wrap around, a request that wants a
  -- response gets a tag under which its route is found, the routes of all others are found as before,
  -- and all pending tags are below the next one again.
  pub enqueue_mem_request-TagsBelow :
      (pool : MemoryPool D) (request : SstRequest) (t : ℕ) (r : OutstandingRequest)
      → TagsBelow pool.next_tag pool.pending
      → pool.next_tag + 1 < 2 ^ 64
      → request.response_requested ≡ true
      → find_pending pool.pending t ≡ some r
      → let pool' = enqueue_mem_request pool request in
        TagsBelow pool'.next_tag pool'.pending
        × (find_pending pool'.pending pool.next_tag ≡ some (route_of request))
        × (find_pending pool'.pending t ≡ some r)
  unfolding enqueue_mem_request find_pending
  enqueue_mem_request-TagsBelow pool request t r below room wants h =
      let next : (pool.next_tag + 1) % 2 ^ 64 ≡ pool.next_tag + 1 = omega arith in
      let older = find_pending-lt pool.next_tag pool.pending t r below h in
      let all_older : TagsBelow ((pool.next_tag + 1) % 2 ^ 64) pool.pending =
        subst (λ n. TagsBelow n pool.pending) (sym next)
          (TagsBelow-weaken pool.next_tag (pool.next_tag + 1) pool.pending (omega arith) below) in
      rw wants ((omega (arith, next), all_older), ground arith, ground arith)

  -- A response that `try_send_response` does not take, without an error, leaves the pool as it was.
  pub try_send_response-refused :
      (pool pool' : MemoryPool D) (response : Response)
      → try_send_response pool response ≡ ok (pool', false)
      → pool' ≡ pool
  unfolding try_send_response send_on
  try_send_response-refused pool pool' response h = ground arith

  try_send_response-send_on :
      (pool : MemoryPool D) (response : Response) (tag : ℕ) (tags : List ℕ)
      (route : OutstandingRequest) (ref : PoolPort) (port : FabricPort D)
      → response.instr_depend_on_me ≡ tag ∷ tags
      → find_pending pool.pending tag ≡ some route
      → select_egress_port pool route.sst_cpu ≡ ok (ref, port)
      → try_send_response pool response ≡ ok (send_on pool tag route response ref port)
  unfolding try_send_response
  try_send_response-send_on pool response tag tags route ref port e f s = ground arith

  send_on-room :
      (pool : MemoryPool D) (tag : ℕ) (route : OutstandingRequest) (response : Response)
      (ref : PoolPort) (port : FabricPort D)
      → FabricPort.can_send port ≡ true
      → send_on pool tag route response ref port ≡ (
        record (set_port ref pool
            (FabricPort.send port (response_event pool.pool_node_id route response)).0) {
              pending = erase_pending pool.pending tag;
            },
        true,
      )
  unfolding send_on
  send_on-room pool tag route response ref port room = rw room refl

  -- Where the ids of the pool and of the requesting node are set, a response to a pending request, for
  -- which the port of its route has room, is taken: the port gets
  -- its event, which names the pool as its source and the requesting node as its destination, and
  -- exactly the request's tag is pending no more.
  pub try_send_response-routed :
      (pool : MemoryPool D) (response : Response) (tag t : ℕ) (tags : List ℕ)
      (route : OutstandingRequest) (ref : PoolPort) (port : FabricPort D)
      → response.instr_depend_on_me ≡ tag ∷ tags
      → find_pending pool.pending tag ≡ some route
      → select_egress_port pool route.sst_cpu ≡ ok (ref, port)
      → FabricPort.can_send port ≡ true
      → pool.pool_node_id < max_u32
      → route.src_node < max_u32
      → let ev = response_event pool.pool_node_id route response in
        (pool' : MemoryPool D) × (try_send_response pool response ≡ ok (pool', true))
        × (pool'
            ≡ record (set_port ref pool (FabricPort.send port ev).0) { pending = pool'.pending })
        × (find_pending pool'.pending t ≡ (if tag == t then none else find_pending pool.pending t))
        × (word ev 0 ≡ pool.pool_node_id)
        × (word ev 1 ≡ route.src_node)
  try_send_response-routed pool response tag t tags route ref port e f s room id src =
      let ev = response_event pool.pool_node_id route response in
      (
        record (set_port ref pool (FabricPort.send port ev).0) {
          pending = erase_pending pool.pending tag;
        },
        try_send_response-send_on pool response tag tags route ref port e f s
            ∙ ap ok (send_on-room pool tag route response ref port room),
        refl,
        find_pending-erase_pending pool.pending tag t,
        (response_event-header pool.pool_node_id route response id src).0,
        (response_event-header pool.pool_node_id route response id src).1,
      )
