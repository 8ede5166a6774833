-- ===== src/Node/LastLevel.antt =====
-- cscore.cc and src/cache.cc: the node and its last-level cache. The cache's `send_remote` is the node's
-- `enqueue_remote_request`, and `handleEvent_CXL` hands the responses to it.
use mathlib.Core.Bool.{true≢false}
use cscore_sstelem.Prelude.{
  ℕ, ◌≡◌, ap, subst, sym, if_cases, ◌∙◌, List, [], ◌∷◌, ◌++◌, Bool, true, false, none, some, length,
  leb, if◌then◌else◌, arith,
}
use cscore_sstelem.Prelude.Result.{Result, ok, ◌>>=◌}
use cscore_sstelem.Double.{Double}
use cscore_sstelem.Packet.{CsEvent, SstRequest, SstResponse}
use cscore_sstelem.Packet.Control.{is_control_event}
use cscore_sstelem.Packet.Convert.{response_src, response_dst, convert_response_to_event}
use cscore_sstelem.Packet.RoundTrip.{ResponseInRange, response_roundtrip}
use cscore_sstelem.AddressMap.{AddressEntry}
use cscore_sstelem.Cache.{TagLookup, Mshr, Cache, block_of}
use cscore_sstelem.Cache.Mshrs.{find_mshr, remove_at, Fault}
use cscore_sstelem.Cache.Answers.{answer, handle_remote_response}
use cscore_sstelem.Cache.Fill.{remote_entry}
use cscore_sstelem.Cache.Miss.{
  forward_packet, remote_request, merge_miss, count_miss, remote_miss, allocate, new_miss,
  handle_miss,
}
use cscore_sstelem.Cache.Remote.{handle_new, new_miss_fabric, fabric_only, miss_can_be_answered}
use cscore_sstelem.Node.{Node, enqueue_remote_request, received_response}
use cscore_sstelem.Node.Requests.{unsent, enqueue_lem}

response_received :
    (resp : SstResponse)
    → ResponseInRange resp
    → received_response (convert_response_to_event resp)
      ≡ some (record resp { src_node = response_src resp; dst_node = response_dst resp })
unfolding received_response is_control_event convert_response_to_event
response_received resp v = ap some (response_roundtrip resp v)

module _ {R : Type 0} where
  -- The loop of `handleEvent_CXL` over the caches: the response is for the first that is called LLC.
  unfoldable pub deliver : SstResponse → List (Cache R) → Result Fault (List (Cache R))
  unfolding handle_remote_response
  deliver resp [] = ok []
  deliver resp (c ∷ cs) =
      let rest = deliver resp cs in
      if c.is_llc
      then (handle_remote_response c resp >>= λ (c' : Cache R). ok (c' ∷ cs))
      else (rest >>= λ (cs' : List (Cache R)). ok (c ∷ cs'))

  unfoldable pub handle_event_cxl : List (Cache R) → CsEvent → Result Fault (List (Cache R))
  unfolding deliver received_response
  handle_event_cxl caches ev = elim (received_response ev) [
    | none ↦ ok caches
    | some resp ↦ deliver resp caches
  ]

  -- A response that the cache can take reaches it as an event.
  handle_event_cxl-ok :
      (c c' : Cache R) (cs : List (Cache R)) (resp : SstResponse)
      → ResponseInRange resp
      → c.is_llc ≡ true
      → handle_remote_response c
          (record resp { src_node = response_src resp; dst_node = response_dst resp })
        ≡ ok c'
      → handle_event_cxl (c ∷ cs) (convert_response_to_event resp) ≡ ok (c' ∷ cs)
  unfolding handle_event_cxl deliver
  handle_event_cxl-ok c c' cs resp v llc e =
      rw (response_received resp v, handle_event_cxl)
        (if_cases (λ (m : Result Fault (List (Cache R))). m ≡ ok (c' ∷ cs)) c.is_llc
          (λ _. ap (λ (m : Result Fault (Cache R)). m >>= λ (x : Cache R). ok (x ∷ cs)) e)
          (λ other. absurd (true≢false (sym llc ∙ other))))

abbrev added : List SstRequest → SstRequest → Bool → List SstRequest
added before req b = before ++ (if b then req ∷ [] else [])

module _ {R E : Type 0} (send_remote : E → SstRequest → E × Bool) where
  handle_miss-is_llc :
      (c : Cache R) (env : E) (pkt : TagLookup)
      → (handle_miss send_remote c env pkt).0.is_llc ≡ c.is_llc
  unfolding handle_miss merge_miss count_miss new_miss remote_miss allocate
  handle_miss-is_llc c env pkt = ground arith

module _ {D I R : Type 0} ⦃d : Double D⦄ where
  -- A miss that the address map sends to the fabric, in a block with no entry and with room for one, is
  -- dealt with exactly when the node accepts its request, which then waits behind the others that the node
  -- has accepted and not sent. The level below gets nothing.
  pub handle_miss-unsent :
      (c : Cache R) (node : Node D I) (pkt : TagLookup) (entry : AddressEntry)
      → find_mshr c.offset_bits pkt.address c.mshr ≡ none
      → leb c.mshr_size (length c.mshr) ≡ false
      → remote_entry c pkt.v_address ≡ some entry
      → let (c', node', done) = handle_miss enqueue_remote_request c node pkt in
        let req = remote_request c.node_id entry (forward_packet pkt) in
        (unsent node' ≡ unsent node ++ (if done then req ∷ [] else []))
        × (node'.sent ≡ node.sent)
        × (c'.lower_level ≡ c.lower_level)
  unfolding remote_entry
  handle_miss-unsent c node pkt entry n room e =
      let req = remote_request c.node_id entry (forward_packet pkt) in
      let (same, waits) = enqueue_lem node req in
      let c₁ : Cache R = record c { cpu = pkt.cpu } in
      let P = λ (res : Cache R × Node D I × Bool).
        (unsent (res.1) ≡ added (unsent node) req res.2) × ((res.1).sent ≡ node.sent) in
      let (grows, still) =
        subst P
          (sym (
            handle_new enqueue_remote_request c node pkt n room
            ∙ new_miss_fabric enqueue_remote_request c₁ node pkt entry e))
          (if_cases P (enqueue_remote_request node req).1
            {x = (
              count_miss (remote_miss c₁ pkt entry) pkt,
              (enqueue_remote_request node req).0,
              true,
            )}
            {y = (c₁, (enqueue_remote_request node req).0, false)}
            (λ taken. (waits ∙ ap (added (unsent node) req) taken, same))
            (λ lost. (waits ∙ ap (added (unsent node) req) lost, same))) in
      (grows, still, fabric_only enqueue_remote_request c node pkt entry e)

  -- The answer to a miss that was dealt with and waits for one is taken when it arrives at the node as an
  -- event: the last-level cache finds an entry for its block, gives it the data, and puts it before the
  -- others, which keep their order. Whatever other caches there are, they stay as they are.
  pub answer_reaches_entry :
      (c : Cache R) (node : Node D I) (pkt : TagLookup) (resp : SstResponse) (cs : List (Cache R))
      → c.is_llc ≡ true
      → (handle_miss enqueue_remote_request c node pkt).2 ≡ true
      → (forward_packet pkt).response_requested ≡ true
      → block_of c.offset_bits resp.address ≡ block_of c.offset_bits pkt.address
      → ResponseInRange resp
      → let c' = (handle_miss enqueue_remote_request c node pkt).0 in
        (c'' : Cache R) × (i : ℕ) × (entry : Mshr) × (handle_event_cxl
            (c' ∷ cs)
            (convert_response_to_event resp)
          ≡ ok (c'' ∷ cs))
        × (find_mshr c'.offset_bits resp.address c'.mshr ≡ some (i, entry))
        × (c''.mshr
            ≡ record entry { data_promise = answer c' resp.data_word resp.pf_metadata }
              ∷ remove_at i c'.mshr)
  answer_reaches_entry c node pkt resp cs llc dealt w same v =
      let c' = (handle_miss enqueue_remote_request c node pkt).0 in
      let (c'', e, a) =
        miss_can_be_answered enqueue_remote_request c node pkt
          (record resp { src_node = response_src resp; dst_node = response_dst resp }) dealt w
          same in
      (
        c'',
        a.index,
        a.entry,
        handle_event_cxl-ok c' c'' cs resp v
            (handle_miss-is_llc enqueue_remote_request c node pkt ∙ llc) e,
        a.found,
        a.in_front,
      )
